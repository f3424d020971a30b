-- ===== src/Message/Reading/Calm.antt =====
-- A reader to which nothing but data arrives: what `fill`, `consume` and `take_fds` give on it.
use dbus_router.Message.Prologue.{Prologue, header_end, total_len, min_header_size}
use dbus_router.Message.Reading.Layout.{fields_of}
use dbus_router.Message.Reading.{take_number}
use dbus_router.Message.{Message}
use dbus_router.Prelude.{
  ℕ, ◌-◌, ◌≤◌, ◌≡◌, refl, sym, Bool, true, false, Option, some, List, [], ◌++◌, ◌==◌, ==_iff, All,
  arith, ltb, leb, Bool-cases, inl, inr, Bytes, length, length-append, take, drop, ok, slice,
}
use dbus_router.Socket.Reader.Buffer.{
  IsReader, unread, stream, avail_lem, Consumed, IsReader-Received, drop-append_le, take-append_le,
}
use dbus_router.Socket.Reader.Arrived.{bytes_in, fds_around, fds_around-Received, IsData}
use dbus_router.Socket.Reader.Fill.{Filled, fill-Filled}
use dbus_router.Socket.Reader.{Reader, avail, fill, take_fds}
use dbus_router.Socket.{max_fds_per_message, Polled, ready}

-- Nothing but data arrives, with no more descriptors than may be queued.
pub record IsCalm (r : Reader) : Type 0 where
  pub inside : IsReader r
  pub data_only : All IsData r.incoming
  pub few_fds : fds_around r ≤ max_fds_per_message

-- What is found: the message, and what is left of the stream.
pub record Found (msg : Message) (more : Bytes) (result : Polled (Option Message) × Reader)
    : Type 0 where
  pub after : Reader
  pub gives : result ≡ (ready (ok (some msg)), after)
  pub rest_is : stream after ≡ more
  pub still_calm : IsCalm after

-- A fill of a calm reader whose stream is long enough.
pub fill_calm : (n : ℕ) (r : Reader) → IsCalm r → n ≤ length (stream r) → Filled n r (fill n r)
fill_calm n r c enough =
    fill-Filled n r c.data_only c.inside
      (omega (arith, c.inside, length-append (unread r) (bytes_in r.incoming), avail_lem r))
      c.few_fds

pub Filled-IsCalm :
    (n : ℕ) (r : Reader) (p : Polled Bool × Reader) → IsCalm r → (f : Filled n r p) → IsCalm f.after
Filled-IsCalm n r p c f = record {
  inside = IsReader-Received f.received_it c.inside;
  data_only = f.more_data;
  few_fds = omega (arith, fds_around-Received f.received_it, c.few_fds);
}

-- The first bytes of the stream, once they are buffered.
pub take-unread : (n : ℕ) (s : Reader) → n ≤ avail s → take n (unread s) ≡ take n (stream s)
take-unread n s enough =
    sym (take-append_le n (unread s) (bytes_in s.incoming) (omega (arith, avail_lem s)))

pub drop-unread :
    (n : ℕ) (s : Reader)
    → n ≤ avail s
    → drop n (unread s) ++ bytes_in s.incoming ≡ drop n (stream s)
drop-unread n s enough =
    sym (drop-append_le n (unread s) (bytes_in s.incoming) (omega (arith, avail_lem s)))

pub zero-take : (n : ℕ) (fds : List ℕ) → n ≡ 0 → take n fds ≡ []
zero-take n fds e = rw e refl

zero-drop : (n : ℕ) (fds : List ℕ) → n ≡ 0 → drop n fds ≡ fds
zero-drop n fds e = rw e refl

pub take_number_lem :
    (n : ℕ) (s : Reader)
    → n ≤ length s.fdq
    → n ≤ max_fds_per_message
    → take_number n s ≡ (ready (ok (take n s.fdq)), record s { fdq = drop n s.fdq })
unfolding take_number take_fds
take_number_lem n s queued few =
    let allowed : ltb max_fds_per_message n ≡ false = ground arith in
    let there : ltb (length s.fdq) n ≡ false = ground arith in
    elim (Bool-cases (n == 0)) [
      | inl none_declared ↦
          let e = (==_iff n 0).0 none_declared in
          rw (allowed, none_declared) (rw (zero-take n s.fdq e, zero-drop n s.fdq e) refl)
      | inr some_declared ↦ rw (allowed, some_declared) (rw there refl)
    ]

-- The header fields as the code slices them.
pub fields_slice :
    (p : Prologue) (raw : Bytes)
    → length raw ≡ total_len p
    → slice raw min_header_size (header_end p) ≡ ok (fields_of p raw)
unfolding slice
fields_slice p raw whole =
    let a : leb min_header_size (header_end p) ≡ true = ground arith in
    let b : leb (header_end p) (length raw) ≡ true = ground (arith, whole) in
    let c : header_end p - min_header_size ≡ p.array_len = omega arith in rw (a, b) (rw c refl)

pub Consumed-IsCalm : (n : ℕ) (s : Reader) → IsCalm s → (cut : Consumed n s) → IsCalm cut.after
Consumed-IsCalm n s c cut = record {
  inside = cut.inside;
  data_only = rw cut.same_incoming c.data_only;
  few_fds = rw (cut.same_fdq, cut.same_incoming) c.few_fds;
}
