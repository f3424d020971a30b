-- ===== src/Socket/Reader.antt =====
-- `DbusReader`: a buffer of bytes and a queue of descriptors.
pub mod Arrived
pub mod Fill
pub mod Buffer
use dbus_router.Prelude.{
  ℕ, zero, suc, ◌+◌, ◌-◌, ◌*◌, Bool, true, false, List, [], ◌∷◌, ◌++◌, ◌==◌, ltb, leb,
  if◌then◌else◌, Bytes, length, take, drop, io, Result, ok, err, panic, slice,
}
use dbus_router.Socket.{max_fds_per_message, Polled, pending, ready, Arrival}

-- `incoming` stands for the socket: what the next calls of `recvmsg` give. After its end the peer is
-- silent.
pub record Reader : Type 0 where
  pub incoming : List Arrival
  pub buf : Bytes
  pub start : ℕ
  pub fdq : List ℕ

-- `AsyncFd::new(fd)?` may fail; the flag says whether it succeeds.
unfoldable pub new : Bool → List Arrival → Result Reader
new registers incoming =
    if registers then ok (record { incoming = incoming; buf = []; start = 0; fdq = [] }) else err io

unfoldable pub fds_queued : Reader → ℕ
fds_queued r = length r.fdq

abbrev pub Reads {ℓ} : Type ℓ → Type ℓ
Reads A = Reader → Polled A × Reader

abbrev pub then_read {ℓ₁ ℓ₂} :
    {Before : Type ℓ₁} {After : Type ℓ₂}
    → Polled Before × Reader
    → (Before → Reads After)
    → Polled After × Reader
then_read (pending, r) rest = (pending, r)
then_read (ready panic, r) rest = (ready panic, r)
then_read (ready (err why), r) rest = (ready (err why), r)
then_read (ready (ok value), r) rest = rest value r

infixl 5 ◌>>=◌
abbrev pub ◌>>=◌ {ℓ₁ ℓ₂} :
    {Before : Type ℓ₁} {After : Type ℓ₂} → Reads Before → (Before → Reads After) → Reads After
◌>>=◌ m rest r = then_read (m r) rest

abbrev pub give {ℓ} : {A : Type ℓ} → A → Reads A
give a r = (ready (ok a), r)

abbrev pub lift {ℓ} : {A : Type ℓ} → Result A → Reads A
lift result r = (ready result, r)

-- `self.buf.len() - self.start`, which is not below 0
abbrev pub avail : Reader → ℕ
avail r = length r.buf - r.start

-- `recvmsg_once` where it gave bytes
received : Bytes → List ℕ → Reads ℕ
received [] fds r = (ready (ok 0), r)
received (b ∷ bytes) fds r =
    if ltb max_fds_per_message (length r.fdq + length fds) then (ready (err io), r) else (
      ready (ok (length (b ∷ bytes))),
      record r { buf = r.buf ++ b ∷ bytes; fdq = r.fdq ++ fds },
    )

-- with the flag MSG_CTRUNC
cut_off : Bytes → List ℕ → Reads ℕ
cut_off [] fds r = (ready (ok 0), r)
cut_off (b ∷ bytes) fds r = (ready (err io), r)

-- `recv_some`, with `recvmsg_once` in it
recv_from : List Arrival → Reads ℕ
unfolding received cut_off
recv_from [] r = (pending, record r { incoming = [] })
recv_from (Arrival.blocked ∷ later) r = recv_from later r
recv_from (Arrival.broken ∷ later) r = (ready (err io), record r { incoming = later })
recv_from (Arrival.chunk bytes fds ∷ later) r = received bytes fds (record r { incoming = later })
recv_from (Arrival.truncated bytes fds ∷ later) r =
    cut_off bytes fds (record r { incoming = later })

unfoldable pub recv_some : Reads ℕ
unfolding recv_from
recv_some r = recv_from r.incoming r

-- one round of the loop of `fill`, where bytes are missing
abbrev go_on : Reads Bool → ℕ → Reads Bool
go_on again zero r = (ready (ok false), r)
go_on again (suc got) r = again r

-- The loop of `fill`, on fuel.
fill_loop : ℕ → ℕ → Reads Bool
fill_loop zero n r = (pending, r)
fill_loop (suc fuel) n r =
    let missing = then_read (recv_some r) (go_on (fill_loop fuel n)) in
    if leb n (avail r) then (ready (ok true), r) else missing

-- Each round takes what one `recvmsg` gave, so one more round than there are is enough.
unfoldable pub fill : ℕ → Reads Bool
unfolding fill_loop
fill n r = fill_loop (suc (length r.incoming)) n r

unfoldable pub head : ℕ → Reads Bytes
head n r = (ready (slice r.buf r.start (r.start + n)), r)

-- `self.buf.drain(..self.start)` panics where `start` is behind the end.
compacted : Reader → Polled (Unit {0}) × Reader
compacted r =
    if ltb (length r.buf) r.start
    then (ready panic, r)
    else (ready (ok tt), record r { buf = drop r.start r.buf; start = 0 })

abbrev compact_limit : ℕ
compact_limit = 64 * 1024

settled : Reader → Polled (Unit {0}) × Reader
unfolding compacted
settled r =
    if r.start == length r.buf
    then (ready (ok tt), record r { buf = []; start = 0 })
    else if ltb compact_limit r.start
    then compacted r
    else (ready (ok tt), r)

unfoldable pub consume : ℕ → Reads (Unit {0})
unfolding settled
consume n r = settled (record r { start = r.start + n })

unfoldable pub take_fds : ℕ → Reads (List ℕ)
take_fds n r =
    if ltb (length r.fdq) n
    then (ready (err io), r)
    else (ready (ok (take n r.fdq)), record r { fdq = drop n r.fdq })
