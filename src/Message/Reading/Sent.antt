-- ===== src/Message/Reading/Sent.antt =====
-- From a `DbusWriter` to the `DbusReader` at the other end of the connection.
use mathlib.Core.List.{append-nil}
use dbus_router.Message.Reading.Calm.{IsCalm, Found}
use dbus_router.Message.Reading.Framing.{read_message_from-queued}
use dbus_router.Message.Reading.Layout.{IsWhole}
use dbus_router.Message.Reading.{or_zero, read_message_from}
use dbus_router.Message.{MessageHeader}
use dbus_router.Prelude.{
  ℕ, ◌<◌, ◌≤◌, ◌≡◌, refl, sym, ap, ◌∙◌, List, [], ◌∷◌, ◌++◌, All, arith, Bytes, length,
  length-append, take, ok, leb, leb→le, Bool-cases, inl, inr,
}
use dbus_router.Socket.Reader.Buffer.{IsReader, unread, stream, avail_lem}
use dbus_router.Socket.Reader.Arrived.{Received, bytes_in, fds_in, fds_in-append, IsData}
use dbus_router.Socket.Reader.{Reader, avail}
use dbus_router.Socket.Writer.Send.{joined, FdsFirst, send-Delivered}
use dbus_router.Socket.Writer.{Writer, send}
use dbus_router.Socket.{max_fds_per_message, ready, Arrival}
use dbus_router.Zvariant.{Zvariant}

-- The first bytes to arrive bring the descriptors, and no others do.
abbrev pub BringsFirst : List ℕ → List Arrival → Type 0
BringsFirst fds [] = Unit
BringsFirst fds (Arrival.chunk bytes brought ∷ later) = (brought ≡ fds) × (fds_in later ≡ [])
BringsFirst fds (_ ∷ later) = BringsFirst fds later

-- The descriptors of the first piece.
abbrev pub fds_of_first : List (Bytes × List ℕ) → List ℕ
fds_of_first [] = []
fds_of_first (piece ∷ pieces) = piece.1

-- What a unix socket does with the pieces of a message that were written: their bytes arrive in
-- order, however they are cut, and the descriptors with the first of the bytes they were written with.
pub record Transported (pieces : List (Bytes × List ℕ)) (arrivals : List Arrival) : Type 0 where
  pub data_only : All IsData arrivals
  pub same_bytes : bytes_in arrivals ≡ joined pieces
  pub fds_first : BringsFirst (fds_of_first pieces) arrivals

left_nil {ℓ} : {A : Type ℓ} (xs ys : List A) → xs ++ ys ≡ [] → xs ≡ []
left_nil [] ys e = refl
left_nil (x ∷ xs) ys e = cc

-- Once bytes have arrived, so have the descriptors.
brought :
    (fds : List ℕ) (used later : List Arrival)
    → BringsFirst fds (used ++ later)
    → 0 < length (bytes_in used)
    → fds_in used ≡ fds
unfolding bytes_in fds_in
brought fds [] later b some_bytes = absurd (omega arith)
brought fds (Arrival.chunk bytes f ∷ used) later (e, l) some_bytes =
    let none_more : fds_in used ≡ [] =
      left_nil (fds_in used) (fds_in later) (sym (fds_in-append used later) ∙ l) in
    rw none_more (append-nil f ∙ e)
brought fds (Arrival.blocked ∷ used) later b some_bytes = brought fds used later b some_bytes
brought fds (Arrival.broken ∷ used) later b some_bytes = brought fds used later b some_bytes
brought fds (Arrival.truncated bytes f ∷ used) later b some_bytes =
    brought fds used later b some_bytes

-- All that is brought.
all_brought :
    (fds : List ℕ) (arrivals : List Arrival)
    → BringsFirst fds arrivals
    → length (fds_in arrivals) ≤ length fds
unfolding fds_in
all_brought fds [] b = omega arith
all_brought fds (Arrival.chunk bytes f ∷ later) (e, l) =
    rw (e, l) (omega (arith, length-append fds []))
all_brought fds (Arrival.blocked ∷ later) b = all_brought fds later b
all_brought fds (Arrival.broken ∷ later) b = all_brought fds later b
all_brought fds (Arrival.truncated bytes f ∷ later) b = all_brought fds later b

take_all {ℓ} : {A : Type ℓ} (xs : List A) → take (length xs) xs ≡ xs
take_all [] = refl
take_all (x ∷ xs) = ap (◌∷◌ x) (take_all xs)

-- A reader that has buffered and queued nothing.
pub record IsIdle (r : Reader) : Type 0 where
  pub nothing_buffered : unread r ≡ []
  pub inside : IsReader r
  pub nothing_queued : r.fdq ≡ []

module _ (z : Zvariant) (r : Reader) (raw : Bytes) (fds : List ℕ) (header : MessageHeader)
    (idle : IsIdle r) (data_only : All IsData r.incoming) (begins : bytes_in r.incoming ≡ raw)
    (brings : BringsFirst fds r.incoming) (few : length fds ≤ max_fds_per_message)
    (w : IsWhole z raw header) (declared : or_zero header.unix_fds ≡ length fds) where
  calm : IsCalm r
  calm = record {
    inside = idle.inside;
    data_only = data_only;
    few_fds = omega (arith, ap length idle.nothing_queued, all_brought fds r.incoming brings);
  }

  stream_is : stream r ≡ raw
  stream_is = ap (λ (l : Bytes). l ++ bytes_in r.incoming) idle.nothing_buffered ∙ begins

  -- behind a fill that has brought bytes
  queue_is : (s : Reader) → Received r s → 0 < avail s → s.fdq ≡ fds
  queue_is s got some_bytes =
      let queue : s.fdq ≡ fds_in got.used =
        got.queued ∙ ap (λ (l : List ℕ). l ++ fds_in got.used) idle.nothing_queued in
      let arrived : 0 < length (bytes_in got.used) = omega (
        arith,
        ap length got.appended,
        length-append r.buf (bytes_in got.used),
        got.same_start,
        ap length idle.nothing_buffered,
        avail_lem r,
        idle.inside,
      ) in
      queue ∙ brought fds got.used s.incoming (rw got.from_socket at brings) arrived

  read_message_from-brought :
      Found (record { header = header; raw = raw; fds = fds }) [] (read_message_from z r)
  read_message_from-brought =
      read_message_from-queued z r raw [] header fds calm (stream_is ∙ sym (append-nil raw)) w
        (λ s got some_bytes.
          let queue = queue_is s got (omega arith) in
          (
            rw declared (ap (take (length fds)) queue ∙ take_all fds),
            omega (arith, declared, ap length queue),
          ))

-- The pieces of a message with bytes: there is a first one, and it has the descriptors.
fds_of_first-FdsFirst :
    (fds : List ℕ) (pieces : List (Bytes × List ℕ))
    → FdsFirst fds pieces
    → 0 < length (joined pieces)
    → fds_of_first pieces ≡ fds
unfolding joined
fds_of_first-FdsFirst fds [] f some_bytes = absurd (omega arith)
fds_of_first-FdsFirst fds (piece ∷ pieces) (e, f) some_bytes = e

-- A whole message is sent, with as many descriptors as its header declares, and `send` succeeds. At the
-- other end is a reader that holds nothing, and all that arrives there is what was written: its bytes
-- in order, however they are cut, with the descriptors coming with the first of them. Then
-- `read_message_from` gives the message with its header, its bytes and its descriptors, and leaves
-- nothing.
pub send-read_message_from :
    (z : Zvariant) (w : Writer) (r : Reader) (raw : Bytes) (fds : List ℕ) (header : MessageHeader)
    → IsWhole z raw header
    → or_zero header.unix_fds ≡ length fds
    → w.delivered ≡ []
    → (send raw fds w).0 ≡ ready (ok tt)
    → IsIdle r
    → Transported (send raw fds w).1.delivered r.incoming
    → Found (record { header = header; raw = raw; fds = fds }) [] (read_message_from z r)
send-read_message_from z w r raw fds header whole declared fresh sent idle moved =
    let (d, too_many) = send-Delivered raw fds w in
    let few : length fds ≤ max_fds_per_message =
      elim (Bool-cases (leb (length fds) max_fds_per_message)) [
        | inl h ↦ leb→le (length fds) max_fds_per_message h
        | inr h ↦ absurd (cc (too_many (ground arith), sent))
      ] in
    let pieces_are : (send raw fds w).1.delivered ≡ d.pieces =
      d.appended ∙ ap (λ (l : List (Bytes × List ℕ)). l ++ d.pieces) fresh in
    let all_joined : joined d.pieces ≡ raw =
      sym (append-nil (joined d.pieces))
      ∙ ap (λ (l : Bytes). joined d.pieces ++ l) (sym (d.all_sent sent))
      ∙ d.prefix_of in
    let some_bytes : 0 < length (joined d.pieces) =
      omega (arith, ap length all_joined, whole.whole) in
    let first_is = fds_of_first-FdsFirst fds d.pieces d.fds_first some_bytes in
    read_message_from-brought z r raw fds header idle moved.data_only
      (moved.same_bytes ∙ ap joined pieces_are ∙ all_joined)
      (rw (← first_is) (rw (← pieces_are) moved.fds_first)) few whole declared
