-- ===== src/Socket/Writer/Send.antt =====
-- What `send` delivers.
use mathlib.Core.List.{append-nil, append_assoc}
use dbus_router.Prelude.{
  ℕ, zero, suc, ◌+◌, ◌<◌, ◌≡◌, refl, sym, ap, ◌∙◌, List, [], ◌∷◌, ◌++◌, All, arith, ltb, Bool-cases,
  inl, inr, Bytes, length, length-drop, take, take-append-drop, drop, ok, err, io,
}
use dbus_router.Socket.Reader.Buffer.{drop-drop, drop_all}
use dbus_router.Socket.Writer.{
  Writer, taken, sendmsg_from, sendmsg_some, sent_some, send_loop, send,
}
use dbus_router.Socket.{max_fds_per_message, Polled, pending, ready, Attempt}

abbrev Piece : Type 0
Piece = Bytes × List ℕ

-- The bytes of the pieces, one behind the other.
unfoldable pub joined : List Piece → Bytes
joined [] = []
joined ((bytes, fds) ∷ pieces) = bytes ++ joined pieces

-- The first piece carries the descriptors, and the others carry none.
abbrev pub FdsFirst : List ℕ → List Piece → Type 0
FdsFirst fds [] = Unit
FdsFirst fds (piece ∷ pieces) = (piece.1 ≡ fds) × All (λ p. p.1 ≡ []) pieces

-- What was delivered of a message, and what was not.
pub record Delivered (message : Bytes) (fds : List ℕ) (w : Writer)
    (result : Polled (Unit {0}) × Writer) : Type 0 where
  pub pieces : List Piece
  pub unsent : Bytes
  pub appended : result.1.delivered ≡ w.delivered ++ pieces
  pub prefix_of : joined pieces ++ unsent ≡ message
  pub fds_first : FdsFirst fds pieces
  pub all_sent : result.0 ≡ ready (ok tt) → unsent ≡ []

nothing :
    (message : Bytes) (fds : List ℕ) (w w' : Writer) (p : Polled (Unit {0}))
    → w'.delivered ≡ w.delivered
    → (p ≡ ready (ok tt) → message ≡ [])
    → Delivered message fds w (p, w')
unfolding joined
nothing message fds w w' p same done = record {
  pieces = [];
  unsent = message;
  appended = same ∙ sym (append-nil w.delivered);
  prefix_of = refl;
  fds_first = tt;
  all_sent = done;
}

-- One piece, and then more with no descriptors.
one_more :
    (message bytes later : Bytes) (fds : List ℕ) (w w' : Writer)
    (result : Polled (Unit {0}) × Writer)
    → w'.delivered ≡ w.delivered ++ (bytes, fds) ∷ []
    → bytes ++ later ≡ message
    → Delivered later [] w' result
    → Delivered message fds w result
unfolding joined
one_more message bytes later fds w w' result wrote splits d = record {
  pieces = (bytes, fds) ∷ d.pieces;
  unsent = d.unsent;
  appended =
      d.appended
      ∙ ap (λ (l : List Piece). l ++ d.pieces) wrote
      ∙ append_assoc w.delivered ((bytes, fds) ∷ []) d.pieces;
  prefix_of =
      append_assoc bytes (joined d.pieces) d.unsent
      ∙ ap (λ (l : Bytes). bytes ++ l) d.prefix_of
      ∙ splits;
  fds_first = (refl, none_later d.pieces d.fds_first);
  all_sent = d.all_sent;
}
  where
    none_later : (pieces : List Piece) → FdsFirst [] pieces → All (λ p. p.1 ≡ []) pieces
    none_later [] f = tt
    none_later (p ∷ pieces) f = f

sendmsg-Delivered :
    (attempts : List Attempt) (chunk : Bytes) (fds : List ℕ) (v w : Writer)
    (again : ℕ → Writer → Polled (Unit {0}) × Writer)
    → ((n : ℕ) (u : Writer) → Delivered (drop n chunk) [] u (again n u))
    → 0 < length chunk
    → v.delivered ≡ w.delivered
    → Delivered chunk fds w (sent_some again (sendmsg_from attempts chunk fds v))
unfolding sendmsg_from taken
sendmsg-Delivered [] chunk fds v w again d some_bytes same =
    nothing chunk fds w _ pending same (λ e. cc)
sendmsg-Delivered (Attempt.blocked ∷ later) chunk fds v w again d some_bytes same =
    sendmsg-Delivered later chunk fds v w again d some_bytes same
sendmsg-Delivered (Attempt.broken ∷ later) chunk fds v w again d some_bytes same =
    nothing chunk fds w _ (ready (err io)) same (λ e. cc)
sendmsg-Delivered (Attempt.accepts zero ∷ later) chunk fds v w again d some_bytes same =
    nothing chunk fds w _ (ready (err io)) same (λ e. cc)
sendmsg-Delivered (Attempt.accepts (suc n) ∷ later) chunk fds v w again d some_bytes same =
    one_more chunk (take (suc n) chunk) (drop (suc n) chunk) fds w _ _
      (ap (λ (l : List Piece). l ++ (take (suc n) chunk, fds) ∷ []) same)
      (take-append-drop (suc n) chunk) (d (suc n) _)

send_loop-Delivered :
    (fuel : ℕ) (message : Bytes) (off : ℕ) (fds : List ℕ) (w : Writer)
    → Delivered (drop off message) fds w (send_loop fuel message off fds w)
unfolding send_loop sendmsg_some
send_loop-Delivered zero message off fds w =
    nothing (drop off message) fds w w pending refl (λ e. cc)
send_loop-Delivered (suc fuel) message off fds w = elim (Bool-cases (ltb off (length message))) [
  | inl more ↦ rw more (
      sendmsg-Delivered w.attempts (drop off message) fds w w
        (λ n. send_loop fuel message (off + n) [])
        (λ n u. rw (← drop-drop off n message) (send_loop-Delivered fuel message (off + n) [] u))
        (ground (arith, length-drop off message)) refl)
  | inr done ↦ rw done (
      nothing (drop off message) fds w w (ready (ok tt)) refl
        (λ e. drop_all off message (ground arith)))
]

-- Whatever the kernel does: what it has taken is a first part of the message, and the first piece of it
-- carries all descriptors and the others none. If `send` succeeds, this is the whole message. With
-- more than 64 descriptors nothing is written and `send` fails.
pub send-Delivered :
    (message : Bytes) (fds : List ℕ) (w : Writer)
    → Delivered message fds w (send message fds w)
      × (max_fds_per_message < length fds → send message fds w ≡ (ready (err io), w))
unfolding send
send-Delivered message fds w = elim (Bool-cases (ltb max_fds_per_message (length fds))) [
  | inl many ↦ rw many (nothing message fds w w (ready (err io)) refl (λ e. cc), λ h. refl)
  | inr few ↦ rw few (
    send_loop-Delivered (suc (length message)) message 0 fds w,
    λ h. let no : ⊥ = ground arith in absurd no,
  )
]
