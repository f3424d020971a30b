-- ===== src/Socket/Writer/Waiting.antt =====
-- When `send` waits: only for the peer.
use dbus_router.Prelude.{
  ℕ, zero, suc, ◌+◌, ◌<◌, ◌≡◌, refl, List, [], arith, ltb, Bool-cases, inl, inr, Bytes, length,
  drop, ◌∷◌,
}
use dbus_router.Socket.Writer.{
  Writer, taken, sendmsg_from, sendmsg_some, sent_some, send_loop, send,
}
use dbus_router.Socket.{max_fds_per_message, Polled, pending, Attempt}

-- A call that waits has used up all attempts.
abbrev pub WaitsForPeer : Polled (Unit {0}) × Writer → Type 0
WaitsForPeer result = result.0 ≡ pending → result.1.attempts ≡ []

sendmsg-WaitsForPeer :
    (attempts : List Attempt) (chunk : Bytes) (fds : List ℕ) (v : Writer)
    (again : ℕ → Writer → Polled (Unit {0}) × Writer)
    → ((n : ℕ) (u : Writer) → WaitsForPeer (again (suc n) u))
    → WaitsForPeer (sent_some again (sendmsg_from attempts chunk fds v))
unfolding sendmsg_from taken
sendmsg-WaitsForPeer [] chunk fds v again d = λ e. refl
sendmsg-WaitsForPeer (Attempt.blocked ∷ later) chunk fds v again d =
    sendmsg-WaitsForPeer later chunk fds v again d
sendmsg-WaitsForPeer (Attempt.broken ∷ later) chunk fds v again d = λ e. cc
sendmsg-WaitsForPeer (Attempt.accepts zero ∷ later) chunk fds v again d = λ e. cc
sendmsg-WaitsForPeer (Attempt.accepts (suc n) ∷ later) chunk fds v again d = d n _

send_loop-WaitsForPeer :
    (fuel : ℕ) (message : Bytes) (off : ℕ) (fds : List ℕ) (w : Writer)
    → 0 < fuel
    → length message < fuel + off
    → WaitsForPeer (send_loop fuel message off fds w)
unfolding send_loop sendmsg_some
send_loop-WaitsForPeer zero message off fds w some_fuel enough =
    λ e. let no : ⊥ = omega arith in absurd no
send_loop-WaitsForPeer (suc fuel) message off fds w some_fuel enough =
    elim (Bool-cases (ltb off (length message))) [
      | inl more ↦ rw more (
          sendmsg-WaitsForPeer w.attempts (drop off message) fds w
            (λ n. send_loop fuel message (off + n) [])
            (λ n u.
              send_loop-WaitsForPeer fuel message (off + suc n) [] u (ground arith) (omega arith)))
      | inr done ↦ rw done (λ e. cc)
    ]

-- If `send` waits, then the socket has no room left: each of its attempts was used. So the fuel, one round
-- more than the message has bytes, never runs out.
pub send-WaitsForPeer :
    (message : Bytes) (fds : List ℕ) (w : Writer) → WaitsForPeer (send message fds w)
unfolding send
send-WaitsForPeer message fds w = elim (Bool-cases (ltb max_fds_per_message (length fds))) [
  | inl many ↦ rw many (λ e. cc)
  | inr few ↦
      rw few
        (send_loop-WaitsForPeer (suc (length message)) message 0 fds w (omega arith) (omega arith))
]
