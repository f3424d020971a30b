-- ===== src/Message/Reading/Taken.antt =====
-- What a message that `read_message_from` gives is made of, whatever the socket does.
use dbus_router.Message.Fields.{parse_header_fields}
use dbus_router.Message.Prologue.{Prologue, parse, total_len, min_header_size}
use dbus_router.Message.Reading.Calm.{take_number_lem, fields_slice}
use dbus_router.Message.Reading.Layout.{IsWhole, fields_of, header_of}
use dbus_router.Message.Reading.{
  or_zero, take_number, take_declared_fds, taken_off, with_whole, with_head, read_message_from,
}
use dbus_router.Message.{Message}
use dbus_router.Prelude.{
  ℕ, ◌≤◌, ◌≡◌, refl, sym, ap, ap₂, ◌∙◌, Bool, true, false, some, List, ◌++◌, arith, Bool-cases, inl,
  inr, ltb, ◌==◌, Bytes, length, length-take, take, drop, take-append-drop, ok, err, panic,
}
use dbus_router.Socket.Reader.Buffer.{
  avail_lem, take-append_le, IsReader, unread, head-unread, consume-Consumed, unread-Received,
  IsReader-Received,
}
use dbus_router.Socket.Reader.Arrived.{Received, Received-trans, bytes_in, fds_in}
use dbus_router.Socket.Reader.Fill.{fill-Received}
use dbus_router.Socket.Reader.{Reader, Reads, then_read, fill, take_fds, avail}
use dbus_router.Socket.{Polled, ready, pending, Arrival, max_fds_per_message}
use dbus_router.Zvariant.{Zvariant}

-- From `r` to `r'` one message was taken, and what arrived besides is kept.
pub record TakenFrom (z : Zvariant) (r r' : Reader) (msg : Message) : Type 0 where
  pub arrived : List Arrival
  pub from_socket : r.incoming ≡ arrived ++ r'.incoming
  pub bytes : unread r ++ bytes_in arrived ≡ msg.raw ++ unread r'
  pub fds : r.fdq ++ fds_in arrived ≡ msg.fds ++ r'.fdq
  pub is_whole : IsWhole z msg.raw msg.header
  pub declared : length msg.fds ≡ or_zero msg.header.unix_fds
  pub few : length msg.fds ≤ max_fds_per_message

then_read_ok {ℓ₁ ℓ₂} :
    {Before : Type ℓ₁} {After : Type ℓ₂} (m : Polled Before × Reader) (rest : Before → Reads After)
    {b : After} {r' : Reader}
    → then_read m rest ≡ (ready (ok b), r')
    → (a : Before) × (s : Reader) × (m ≡ (ready (ok a), s)) × (rest a s ≡ (ready (ok b), r'))
then_read_ok (pending, s) rest e = cc
then_read_ok (ready panic, s) rest e = cc
then_read_ok (ready (err why), s) rest e = cc
then_read_ok (ready (ok a), s) rest e = (a, s, refl, e)

-- Where descriptors are taken, as many as declared are there, and not more than 64.
take_number_ok :
    (n : ℕ) (s s' : Reader) (fds : List ℕ)
    → take_number n s ≡ (ready (ok fds), s')
    → (n ≤ max_fds_per_message) × (n ≤ length s.fdq)
unfolding take_number take_fds
take_number_ok n s s' fds e = elim (Bool-cases (ltb max_fds_per_message n)) [
  | inl many ↦ let e' = rw many at e in cc
  | inr allowed ↦ elim (Bool-cases (n == 0)) [
    | inl none_declared ↦ (ground arith, ground arith)
    | inr some_declared ↦ elim (Bool-cases (ltb (length s.fdq) n)) [
      | inl short ↦ let e' = rw (allowed, some_declared, short) at e in cc
      | inr there ↦ (ground arith, ground arith)
    ]
  ]
]

-- Behind the bytes of the message.
record OffQueue (z : Zvariant) (p : Prologue) (raw : Bytes) (s s' : Reader) (msg : Message)
    : Type 0 where
  pub as_is : (s'.incoming ≡ s.incoming) × (unread s' ≡ unread s)
  pub front : s.fdq ≡ msg.fds ++ s'.fdq
  pub raw_is : msg.raw ≡ raw
  pub header_is : msg.header ≡ header_of z p raw
  pub declared : length msg.fds ≡ or_zero msg.header.unix_fds
  pub few : length msg.fds ≤ max_fds_per_message

taken_off-OffQueue :
    (z : Zvariant) (p : Prologue) (raw : Bytes) (s s' : Reader) (msg : Message)
    → length raw ≡ total_len p
    → taken_off z p raw s ≡ (ready (ok (some msg)), s')
    → OffQueue z p raw s s' msg
unfolding taken_off take_declared_fds
taken_off-OffQueue z p raw s s' msg whole e =
    let n = or_zero (parse_header_fields z (fields_of p raw) p.endian).unix_fds in
    let e' = rw (fields_slice p raw whole) at e in
    let (fds, t, got, gives) = then_read_ok (take_number n s) _ e' in
    let (few, there) = take_number_ok n s t fds got in
    let taken = sym got ∙ take_number_lem n s there few in
    let fds_are : fds ≡ take n s.fdq = cc in
    let left : t ≡ record s { fdq = drop n s.fdq } =
      ap (λ (x : Polled (List ℕ) × Reader). x.1) taken in
    let same : t ≡ s' = cc in
    let msg_is : msg ≡ record { header = header_of z p raw; raw = raw; fds = fds } = cc in
    let s'_is : s' ≡ record s { fdq = drop n s.fdq } = sym same ∙ left in
    let msg_fds : msg.fds ≡ take n s.fdq = ap (λ (m : Message). m.fds) msg_is ∙ fds_are in
    let counted : length msg.fds ≡ n = omega (arith, ap length msg_fds, length-take n s.fdq) in
    record {
      as_is = (ap (λ (x : Reader). x.incoming) s'_is, ap unread s'_is);
      front =
          sym (take-append-drop n s.fdq)
          ∙ ap₂ (λ (a b : List ℕ). a ++ b) (sym msg_fds) (ap (λ (x : Reader). x.fdq) (sym s'_is));
      raw_is = ap (λ (m : Message). m.raw) msg_is;
      header_is = ap (λ (m : Message). m.header) msg_is;
      declared = counted ∙ ap (λ (m : Message). or_zero m.header.unix_fds) (sym msg_is);
      few = omega (arith, counted, few);
    }

-- Behind the second `fill`: the bytes of the message are at the front of the buffer.
record OffBuffer (z : Zvariant) (p : Prologue) (s s' : Reader) (msg : Message) : Type 0 where
  pub same_incoming : s'.incoming ≡ s.incoming
  pub front : unread s ≡ msg.raw ++ unread s'
  pub queue_front : s.fdq ≡ msg.fds ++ s'.fdq
  pub long : length msg.raw ≡ total_len p
  pub header_is : msg.header ≡ header_of z p msg.raw
  pub declared : length msg.fds ≡ or_zero msg.header.unix_fds
  pub few : length msg.fds ≤ max_fds_per_message

with_whole-OffBuffer :
    (z : Zvariant) (p : Prologue) (s s' : Reader) (msg : Message)
    → IsReader s
    → total_len p ≤ avail s
    → with_whole z p true s ≡ (ready (ok (some msg)), s')
    → OffBuffer z p s s' msg
unfolding with_whole
with_whole-OffBuffer z p s s' msg inside enough e =
    let total = total_len p in
    let cut = consume-Consumed total s inside enough in
    let raw = take total (unread s) in
    let long : length raw ≡ total = omega (arith, length-take total (unread s), avail_lem s) in
    let e' = rw (head-unread total s inside enough) at e in
    let e'' = rw cut.gives at e' in
    let q = taken_off-OffQueue z p raw cut.after s' msg long e'' in
    record {
      same_incoming = q.as_is.0 ∙ cut.same_incoming;
      front =
          sym (take-append-drop total (unread s))
          ∙ ap₂ (λ (a b : Bytes). a ++ b) (sym q.raw_is) (sym cut.dropped ∙ sym q.as_is.1);
      queue_front = sym cut.same_fdq ∙ q.front;
      long = ap length q.raw_is ∙ long;
      header_is = q.header_is ∙ ap (header_of z p) (sym q.raw_is);
      declared = q.declared;
      few = q.few;
    }

-- What the two arrivals before and behind the prologue bring together.
together :
    (z : Zvariant) (p : Prologue) (r s1 s2 r' : Reader) (msg : Message)
    → IsReader r
    → Received r s1
    → Received s1 s2
    → min_header_size ≤ avail s1
    → parse (take min_header_size (unread s1)) ≡ ok p
    → OffBuffer z p s2 r' msg
    → TakenFrom z r r' msg
together z p r s1 s2 r' msg inside got1 got2 enough parses b =
    let got = Received-trans r s1 s2 got1 got2 in
    let first : take min_header_size msg.raw ≡ take min_header_size (unread s1) =
      sym (take-append_le min_header_size msg.raw (unread r') (omega (arith, b.long)))
      ∙ ap (take min_header_size)
          (sym b.front ∙ unread-Received got2 (IsReader-Received got1 inside))
      ∙ take-append_le min_header_size (unread s1) (bytes_in got2.used)
          (omega (arith, avail_lem s1)) in
    record {
      arrived = got.used;
      from_socket =
          got.from_socket ∙ ap (λ (l : List Arrival). got.used ++ l) (sym b.same_incoming);
      bytes = sym (unread-Received got inside) ∙ b.front;
      fds = sym got.queued ∙ b.queue_front;
      is_whole = record {
        prologue = p;
        parses = ap parse first ∙ parses;
        whole = b.long;
        header_is = b.header_is;
      };
      declared = b.declared;
      few = b.few;
    }

module _ (z : Zvariant) (r r' : Reader) (msg : Message) (inside : IsReader r) where
  behind_whole :
      (p : Prologue) (whole : Bool) (s1 s2 : Reader)
      → Received r s1
      → min_header_size ≤ avail s1
      → parse (take min_header_size (unread s1)) ≡ ok p
      → fill (total_len p) s1 ≡ (ready (ok whole), s2)
      → with_whole z p whole s2 ≡ (ready (ok (some msg)), r')
      → TakenFrom z r r' msg
  behind_whole p false s1 s2 got1 enough parses filled e = unfold with_whole in cc
  behind_whole p true s1 s2 got1 enough parses filled e =
      let (got2, there) = fill-Received (total_len p) s1 s2 filled in
      together z p r s1 s2 r' msg inside got1 got2 enough parses (
        with_whole-OffBuffer z p s2 r' msg (IsReader-Received got2 (IsReader-Received got1 inside))
          there e)

  behind_head :
      (there : Bool) (s1 : Reader)
      → fill min_header_size r ≡ (ready (ok there), s1)
      → with_head z there s1 ≡ (ready (ok (some msg)), r')
      → TakenFrom z r r' msg
  unfolding with_head
  behind_head false s1 filled e = cc
  behind_head true s1 filled e =
      let (got1, enough) = fill-Received min_header_size r s1 filled in
      let first = take min_header_size (unread s1) in
      let e' = rw (head-unread min_header_size s1 (IsReader-Received got1 inside) enough) at e in
      let (p, t, parsed, e1) = then_read_ok (ready (parse first), s1) _ e' in
      let parses : parse first ≡ ok p = cc in
      let same : t ≡ s1 = ap (λ (x : Polled Prologue × Reader). x.1) (sym parsed) in
      let (whole, s2, filled2, e2) = then_read_ok (fill (total_len p) t) _ e1 in
      behind_whole p whole s1 s2 got1 enough parses (ap (fill (total_len p)) (sym same) ∙ filled2)
        e2

-- Whatever the socket does, errors included: when `read_message_from` gives a message, then what was buffered and
-- what arrived since is the message and what is buffered after it, byte by byte, and the same holds of the
-- descriptors. The message is as long as its first 16 bytes say, its header is what they and its header
-- fields say, and it has as many descriptors as it declares, 64 at most.
pub read_message_from-TakenFrom :
    (z : Zvariant) (r r' : Reader) (msg : Message)
    → IsReader r
    → read_message_from z r ≡ (ready (ok (some msg)), r')
    → TakenFrom z r r' msg
unfolding read_message_from
read_message_from-TakenFrom z r r' msg inside e =
    let (there, s1, filled, e') = then_read_ok (fill min_header_size r) _ e in
    behind_head z r r' msg inside there s1 filled e'
