-- ===== src/Socket/Writer.antt =====
-- `DbusWriter`: a message is written in as many pieces as the kernel takes it in.
pub mod Send
pub mod Waiting
use dbus_router.Prelude.{
  ℕ, zero, suc, ◌+◌, Bool, true, false, List, [], ◌∷◌, ◌++◌, ltb, if◌then◌else◌, Bytes, length,
  take, drop, io, Result, ok, err, panic,
}
use dbus_router.Socket.{Attempt, Polled, pending, ready, max_fds_per_message}

-- `attempts` stands for the socket: what the next calls of `sendmsg` give. After its end the peer takes
-- nothing more. `delivered` lists what the kernel has taken, the first piece first.
pub record Writer : Type 0 where
  pub attempts : List Attempt
  pub delivered : List (Bytes × List ℕ)

-- `AsyncFd::new(fd)?` may fail; the flag says whether it succeeds.
unfoldable pub new : Bool → List Attempt → Result Writer
new registers attempts =
    if registers then ok (record { attempts = attempts; delivered = [] }) else err io

-- `sendmsg_once` where the kernel takes `n` bytes; the descriptors go with the first of them.
taken : Bytes → List ℕ → ℕ → Writer → Polled ℕ × Writer
taken chunk fds zero w = (ready (ok 0), w)
taken chunk fds (suc n) w =
    (ready (ok (suc n)), record w { delivered = w.delivered ++ (take (suc n) chunk, fds) ∷ [] })

sendmsg_from : List Attempt → Bytes → List ℕ → Writer → Polled ℕ × Writer
unfolding taken
sendmsg_from [] chunk fds w = (pending, record w { attempts = [] })
sendmsg_from (Attempt.blocked ∷ later) chunk fds w = sendmsg_from later chunk fds w
sendmsg_from (Attempt.broken ∷ later) chunk fds w = (ready (err io), record w { attempts = later })
sendmsg_from (Attempt.accepts n ∷ later) chunk fds w =
    taken chunk fds n (record w { attempts = later })

unfoldable pub sendmsg_some : Bytes → List ℕ → Writer → Polled ℕ × Writer
unfolding sendmsg_from
sendmsg_some chunk fds w = sendmsg_from w.attempts chunk fds w

-- what follows one `sendmsg_some`
abbrev sent_some :
    (ℕ → Writer → Polled (Unit {0}) × Writer) → Polled ℕ × Writer → Polled (Unit {0}) × Writer
sent_some again (pending, w) = (pending, w)
sent_some again (ready panic, w) = (ready panic, w)
sent_some again (ready (err why), w) = (ready (err why), w)
sent_some again (ready (ok zero), w) = (ready (err io), w)
sent_some again (ready (ok (suc n)), w) = again (suc n) w

-- The loop of `send`, on fuel. `send_fds` are the descriptors that are still to be delivered.
send_loop : ℕ → Bytes → ℕ → List ℕ → Writer → Polled (Unit {0}) × Writer
send_loop zero message off send_fds w = (pending, w)
send_loop (suc fuel) message off send_fds w =
    let more =
      sent_some (λ n. send_loop fuel message (off + n) [])
        (sendmsg_some (drop off message) send_fds w) in
    if ltb off (length message) then more else (ready (ok tt), w)

-- Each round writes a byte, so one more round than there are bytes is enough.
unfoldable pub send : Bytes → List ℕ → Writer → Polled (Unit {0}) × Writer
unfolding send_loop
send message fds w =
    if ltb max_fds_per_message (length fds)
    then (ready (err io), w)
    else send_loop (suc (length message)) message 0 fds w
