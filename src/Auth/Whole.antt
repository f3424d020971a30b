-- ===== src/Auth/Whole.antt =====
-- Which bytes `read_auth_line` gives as a line, seen from the loop that reads them one by one.
use mathlib.Core.List.{append_assoc}
use dbus_router.Auth.{
  more, line, read_byte, read_line_from, read_auth_line, ends_line, auth_buffer_size,
}
use dbus_router.Prelude.{
  ℕ, ◌≡◌, refl, ap, ◌∙◌, [], ◌∷◌, ◌++◌, Bool-cases, inl, inr, Bytes, leb, length, ok,
}
use dbus_router.Socket.Stream.{Ending}
use dbus_router.Socket.{ready}

pub read_byte-more_is :
    (size : ℕ) (part l : Bytes) (b : ℕ) → read_byte size part b ≡ more l → l ≡ part ++ b ∷ []
unfolding read_byte
read_byte-more_is size part l b h = elim (Bool-cases (ends_line (part ++ b ∷ []))) [
  | inl whole ↦ let h' = rw whole at h in cc
  | inr going ↦ elim (Bool-cases (leb size (length (part ++ b ∷ [])))) [
    | inl long ↦ let h' = rw (going, long) at h in cc
    | inr room ↦ let h' = rw (going, room) at h in cc
  ]
]

pub read_byte-line_is :
    (size : ℕ) (part l : Bytes) (b : ℕ) → read_byte size part b ≡ line l → l ≡ part ++ b ∷ []
unfolding read_byte
read_byte-line_is size part l b h = elim (Bool-cases (ends_line (part ++ b ∷ []))) [
  | inl whole ↦ let h' = rw whole at h in cc
  | inr going ↦ elim (Bool-cases (leb size (length (part ++ b ∷ [])))) [
    | inl long ↦ let h' = rw (going, long) at h in cc
    | inr room ↦ let h' = rw (going, room) at h in cc
  ]
]

-- The first bytes of a line that does not end in them.
abbrev pub IsPart : Bytes → Type 0
IsPart part =
    (rest : Bytes) (ending : Ending)
    → read_line_from auth_buffer_size [] (part ++ rest) ending
      ≡ read_line_from auth_buffer_size part rest ending

-- Where these bytes are at the front of a stream, they are what `read_auth_line` reads.
abbrev pub IsWholeLine : Bytes → Type 0
IsWholeLine l =
    (rest : Bytes) (ending : Ending)
    → read_auth_line auth_buffer_size (record { bytes = l ++ rest; ending = ending })
      ≡ (ready (ok l), record { bytes = rest; ending = ending })

pub read_on-IsPart :
    (part l : Bytes) (b : ℕ) → IsPart part → read_byte auth_buffer_size part b ≡ more l → IsPart l
unfolding read_line_from
read_on-IsPart part l b p h rest ending =
    ap (λ (x : Bytes). read_line_from auth_buffer_size [] (x ++ rest) ending)
      (read_byte-more_is auth_buffer_size part l b h)
    ∙ ap (λ (x : Bytes). read_line_from auth_buffer_size [] x ending)
        (append_assoc part (b ∷ []) rest)
    ∙ p (b ∷ rest) ending
    ∙ rw (read_line_from, h) refl

pub ended-IsWholeLine :
    (part l : Bytes) (b : ℕ)
    → IsPart part
    → read_byte auth_buffer_size part b ≡ line l
    → IsWholeLine l
unfolding read_line_from read_auth_line
ended-IsWholeLine part l b p h rest ending =
    let e : read_line_from auth_buffer_size [] (l ++ rest) ending ≡ (ready (ok l), rest) =
      ap (λ (x : Bytes). read_line_from auth_buffer_size [] (x ++ rest) ending)
        (read_byte-line_is auth_buffer_size part l b h)
      ∙ ap (λ (x : Bytes). read_line_from auth_buffer_size [] x ending)
          (append_assoc part (b ∷ []) rest)
      ∙ p (b ∷ rest) ending
      ∙ rw (read_line_from, h) refl in
    rw e refl
