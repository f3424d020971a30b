-- ===== src/Socket.antt =====
-- src/dbus/socket.rs: bytes and file descriptors over a unix socket. The kernel is not modelled: what
-- each `recvmsg` and `sendmsg` gives is a list that the socket carries with it.
pub mod Reader
pub mod Writer
pub mod Stream
pub mod Control
use dbus_router.Prelude.{ℕ, List, Bytes, Result, ok, err, panic}

-- What an `async` function has come to: it still waits for the peer, or it has returned.
pub data Polled {ℓ} (A : Type ℓ) : Type ℓ where
  pending : Polled A
  ready : Result A → Polled A

-- One `recvmsg`: it would block, it fails, or it gives bytes and descriptors, perhaps with the flag
-- MSG_CTRUNC. No bytes at all are the end of the stream.
pub data Arrival : Type 0 where
  blocked : Arrival
  broken : Arrival
  chunk : Bytes → List ℕ → Arrival
  truncated : Bytes → List ℕ → Arrival

-- One `sendmsg`: it would block, it fails, or it accepts that many bytes.
pub data Attempt : Type 0 where
  blocked : Attempt
  broken : Attempt
  accepts : ℕ → Attempt

-- `MAX_FDS_PER_MESSAGE`
abbrev pub max_fds_per_message : ℕ
max_fds_per_message = 64
