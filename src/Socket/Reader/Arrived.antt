-- ===== src/Socket/Reader/Arrived.antt =====
-- What the socket has for a `SocketReader`, and what is taken of it: the bytes and the descriptors of the
-- first arrivals, in the order of arrival.
use mathlib.Core.List.{append-nil, append_assoc}
use dbus_router.Prelude.{
  ℕ, ◌+◌, ◌≤◌, ◌≡◌, refl, sym, ap, ◌∙◌, List, [], ◌∷◌, ◌++◌, arith, Bytes, length, length-append,
}
use dbus_router.Socket.Reader.{Reader}
use dbus_router.Socket.{Arrival}

-- The bytes and the descriptors that arrive.
unfoldable pub bytes_in : List Arrival → Bytes
bytes_in [] = []
bytes_in (Arrival.chunk bytes fds ∷ later) = bytes ++ bytes_in later
bytes_in (_ ∷ later) = bytes_in later

unfoldable pub fds_in : List Arrival → List ℕ
fds_in [] = []
fds_in (Arrival.chunk bytes fds ∷ later) = fds ++ fds_in later
fds_in (_ ∷ later) = fds_in later

-- No error and no end of the stream.
abbrev pub IsData : Arrival → Type 0
IsData Arrival.blocked = Unit
IsData (Arrival.chunk (b ∷ bytes) fds) = Unit
IsData _ = ⊥

-- From `r` to `r'` the first arrivals were taken, and their bytes and descriptors stand behind those
-- that were there, in the order of arrival.
pub record Received (r r' : Reader) : Type 0 where
  pub used : List Arrival
  pub from_socket : r.incoming ≡ used ++ r'.incoming
  pub appended : r'.buf ≡ r.buf ++ bytes_in used
  pub queued : r'.fdq ≡ r.fdq ++ fds_in used
  pub same_start : r'.start ≡ r.start

pub Received-refl : (r : Reader) → Received r r
unfolding bytes_in fds_in
Received-refl r = record {
  used = [];
  from_socket = refl;
  appended = sym (append-nil r.buf);
  queued = sym (append-nil r.fdq);
  same_start = refl;
}

pub bytes_in-append : (ins bs : List Arrival) → bytes_in (ins ++ bs) ≡ bytes_in ins ++ bytes_in bs
unfolding bytes_in
bytes_in-append [] bs = refl
bytes_in-append (Arrival.chunk bytes fds ∷ ins) bs = rw (bytes_in-append ins bs) (simp append_assoc)
bytes_in-append (Arrival.blocked ∷ ins) bs = bytes_in-append ins bs
bytes_in-append (Arrival.broken ∷ ins) bs = bytes_in-append ins bs
bytes_in-append (Arrival.truncated bytes fds ∷ ins) bs = bytes_in-append ins bs

pub fds_in-append : (ins bs : List Arrival) → fds_in (ins ++ bs) ≡ fds_in ins ++ fds_in bs
unfolding fds_in
fds_in-append [] bs = refl
fds_in-append (Arrival.chunk bytes fds ∷ ins) bs = rw (fds_in-append ins bs) (simp append_assoc)
fds_in-append (Arrival.blocked ∷ ins) bs = fds_in-append ins bs
fds_in-append (Arrival.broken ∷ ins) bs = fds_in-append ins bs
fds_in-append (Arrival.truncated bytes fds ∷ ins) bs = fds_in-append ins bs

pub Received-trans : (r s t : Reader) → Received r s → Received s t → Received r t
Received-trans r s t a b = record {
  used = a.used ++ b.used;
  from_socket =
      a.from_socket
      ∙ ap (λ (l : List Arrival). a.used ++ l) b.from_socket
      ∙ sym (append_assoc a.used b.used t.incoming);
  appended =
      b.appended
      ∙ ap (λ (l : Bytes). l ++ bytes_in b.used) a.appended
      ∙ append_assoc r.buf (bytes_in a.used) (bytes_in b.used)
      ∙ ap (λ (l : Bytes). r.buf ++ l) (sym (bytes_in-append a.used b.used));
  queued =
      b.queued
      ∙ ap (λ (l : List ℕ). l ++ fds_in b.used) a.queued
      ∙ append_assoc r.fdq (fds_in a.used) (fds_in b.used)
      ∙ ap (λ (l : List ℕ). r.fdq ++ l) (sym (fds_in-append a.used b.used));
  same_start = b.same_start ∙ a.same_start;
}

-- the reader with other arrivals
abbrev pub fed : Reader → List Arrival → Reader
fed r ins = record r { incoming = ins }

pub Received-chunk :
    (r : Reader) (later : List Arrival) (b : ℕ) (bytes : Bytes) (fds : List ℕ)
    → Received
        (fed r (Arrival.chunk (b ∷ bytes) fds ∷ later))
        (record (fed r later) { buf = r.buf ++ b ∷ bytes; fdq = r.fdq ++ fds })
unfolding bytes_in fds_in
Received-chunk r later b bytes fds = record {
  used = Arrival.chunk (b ∷ bytes) fds ∷ [];
  from_socket = refl;
  appended = ap (λ (l : Bytes). r.buf ++ b ∷ l) (sym (append-nil bytes));
  queued = ap (λ (l : List ℕ). r.fdq ++ l) (sym (append-nil fds));
  same_start = refl;
}

pub Received-blocked :
    (r : Reader) (later : List Arrival) {r' : Reader}
    → Received (fed r later) r'
    → Received (fed r (Arrival.blocked ∷ later)) r'
unfolding bytes_in fds_in
Received-blocked r later a = record {
  used = Arrival.blocked ∷ a.used;
  from_socket = ap (◌∷◌ Arrival.blocked) a.from_socket;
  appended = a.appended;
  queued = a.queued;
  same_start = a.same_start;
}

-- How many descriptors are queued or on their way.
abbrev pub fds_around : Reader → ℕ
fds_around r = length r.fdq + length (fds_in r.incoming)

bytes_in-Received :
    {r r' : Reader} → Received r r' → r'.buf ++ bytes_in r'.incoming ≡ r.buf ++ bytes_in r.incoming
bytes_in-Received {r} {r'} a =
    ap (λ (l : Bytes). l ++ bytes_in r'.incoming) a.appended
    ∙ append_assoc r.buf (bytes_in a.used) (bytes_in r'.incoming)
    ∙ ap (λ (l : Bytes). r.buf ++ l)
        (sym (bytes_in-append a.used r'.incoming) ∙ ap bytes_in (sym a.from_socket))

fds_in-Received :
    {r r' : Reader} → Received r r' → r'.fdq ++ fds_in r'.incoming ≡ r.fdq ++ fds_in r.incoming
fds_in-Received {r} {r'} a =
    ap (λ (l : List ℕ). l ++ fds_in r'.incoming) a.queued
    ∙ append_assoc r.fdq (fds_in a.used) (fds_in r'.incoming)
    ∙ ap (λ (l : List ℕ). r.fdq ++ l)
        (sym (fds_in-append a.used r'.incoming) ∙ ap fds_in (sym a.from_socket))

pub fds_around-Received : {r r' : Reader} → Received r r' → fds_around r' ≡ fds_around r
fds_around-Received {r} {r'} a = omega (
  arith,
  ap length (fds_in-Received a),
  length-append r.fdq (fds_in r.incoming),
  length-append r'.fdq (fds_in r'.incoming),
)

-- how many bytes are in the buffer or on their way
abbrev pub bytes_around : Reader → ℕ
bytes_around r = length r.buf + length (bytes_in r.incoming)

pub bytes_around-Received : {r r' : Reader} → Received r r' → bytes_around r' ≡ bytes_around r
bytes_around-Received {r} {r'} a = omega (
  arith,
  ap length (bytes_in-Received a),
  length-append r.buf (bytes_in r.incoming),
  length-append r'.buf (bytes_in r'.incoming),
)

pub length-Received : {r r' : Reader} → Received r r' → length r.buf ≤ length r'.buf
length-Received {r} a = omega (arith, ap length a.appended, length-append r.buf (bytes_in a.used))
