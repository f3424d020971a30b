-- ===== src/Auth/Lines.antt =====
-- A line of the handshake: when `read_auth_line` gives it, and what it gives.
use mathlib.Core.List.{reverse, reverse-append, append-nil, append_assoc}
use dbus_router.Auth.{
  reversed_line, more, line, ends_line, read_byte, read_line_from, read_auth_line, auth_buffer_size,
}
use dbus_router.Prelude.{
  ℕ, ◌+◌, ◌≤◌, ◌<◌, ◌≡◌, ◌≢◌, refl, sym, ap, ◌∙◌, true, false, [], ◌∷◌, ◌++◌, All, arith, Bytes,
  length, length-append, ok,
}
use dbus_router.Socket.Stream.{Ending}
use dbus_router.Socket.{ready}

abbrev pub crlf : Bytes
crlf = 13 ∷ 10 ∷ []

-- One line with its end, and no end before it, that fits in the buffer.
pub record IsLine (l : Bytes) : Type 0 where
  pub words : Bytes
  pub unbroken : All (λ b. b ≢ 10) words
  pub ended : l ≡ words ++ crlf
  pub fits : length words + 2 ≤ auth_buffer_size

ends_line-snoc : (result : Bytes) (b : ℕ) → b ≢ 10 → ends_line (result ++ b ∷ []) ≡ false
unfolding ends_line
ends_line-snoc result b h = rw (reverse-append result (b ∷ [])) (go (reverse result))
  where
    go : (back : Bytes) → reversed_line (b ∷ back) ≡ false
    go [] = refl
    go (a ∷ back) = ground arith

ends_line-crlf : (result : Bytes) → ends_line ((result ++ 13 ∷ []) ++ 10 ∷ []) ≡ true
unfolding ends_line
ends_line-crlf result =
    rw (reverse-append (result ++ 13 ∷ []) (10 ∷ [])) (rw (reverse-append result (13 ∷ [])) refl)

-- A byte within a line.
pub read_byte-more :
    (size : ℕ) (result : Bytes) (b : ℕ)
    → b ≢ 10
    → length result + 1 < size
    → read_byte size result b ≡ more (result ++ b ∷ [])
unfolding read_byte
read_byte-more size result b h room =
    rw (ends_line-snoc result b h) (ground (arith, length-append result (b ∷ [])))

-- The last byte of it.
pub read_byte-line :
    (size : ℕ) (result : Bytes)
    → read_byte size (result ++ 13 ∷ []) 10 ≡ line ((result ++ 13 ∷ []) ++ 10 ∷ [])
unfolding read_byte
read_byte-line size result = rw (ends_line-crlf result) refl

-- The bytes of a line, behind those that are already read.
read_line_from-words :
    (size : ℕ) (result words rest : Bytes) (ending : Ending)
    → All (λ b. b ≢ 10) words
    → length result + length words + 2 ≤ size
    → read_line_from size result (words ++ crlf ++ rest) ending
      ≡ (ready (ok ((result ++ words) ++ crlf)), rest)
unfolding read_line_from
read_line_from-words size result [] rest ending u room =
    rw (read_line_from, read_byte-more size result 13 (λ h. ground arith) (omega arith))
      (rw (read_line_from, read_byte-line size result)
        (rw (append-nil result)
          (ap (λ (l : Bytes). (ready (ok l), rest)) (append_assoc result (13 ∷ []) (10 ∷ [])))))
read_line_from-words size result (b ∷ words) rest ending (h, u) room =
    rw (read_line_from, read_byte-more size result b h (ground arith))
      (read_line_from-words size (result ++ b ∷ []) words rest ending u
          (ground (arith, length-append result (b ∷ [])))
        ∙ ap (λ (l : Bytes). (ready (ok (l ++ crlf)), rest)) (append_assoc result (b ∷ []) words))

-- A line of the handshake that is at the front of the stream is what `read_auth_line` gives, whole, and
-- all behind it is left in the stream.
pub read_auth_line-IsLine :
    (l rest : Bytes) (ending : Ending)
    → IsLine l
    → read_auth_line auth_buffer_size (record { bytes = l ++ rest; ending = ending })
      ≡ (ready (ok l), record { bytes = rest; ending = ending })
unfolding read_auth_line
read_auth_line-IsLine l rest ending i =
    let e : read_line_from auth_buffer_size [] (l ++ rest) ending ≡ (ready (ok l), rest) =
      ap (λ (b : Bytes). read_line_from auth_buffer_size [] b ending)
        (ap (λ (b : Bytes). b ++ rest) i.ended)
      ∙ read_line_from-words auth_buffer_size [] i.words rest ending i.unbroken
          (omega (arith, i.fits))
      ∙ ap (λ (b : Bytes). (ready (ok b), rest)) (sym i.ended) in
    rw e refl
