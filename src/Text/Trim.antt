-- ===== src/Text/Trim.antt =====
-- `str::trim`, `str::trim_start` and `str::trim_matches(c)`. White space is Unicode's, by its UTF-8 bytes.
use mathlib.Core.List.{reverse, reverse_aux, reverse-append, reverse-reverse}
use dbus_router.Prelude.{
  ℕ, zero, suc, ◌<◌, ◌≢◌, ◌≡◌, ◌∙◌, All, refl, arith, Bool, ◌&&◌, ◌||◌, [], ◌∷◌, ◌++◌, leb, ◌==◌,
  if◌then◌else◌, Bytes, length, drop,
}

abbrev within : ℕ → ℕ → ℕ → Bool
within lo hi b = leb lo b && leb b hi

is_ascii_space : ℕ → Bool
is_ascii_space a = within 9 13 a || a == 32

is_space_of_two : ℕ → ℕ → Bool
is_space_of_two a b = a == 0xc2 && (b == 0x85 || b == 0xa0)

is_space_of_three : ℕ → ℕ → ℕ → Bool
is_space_of_three a b c =
    (a == 0xe1 && b == 0x9a && c == 0x80)
    || (a == 0xe2 && b == 0x80 && (within 0x80 0x8a c || c == 0xa8 || c == 0xa9 || c == 0xaf))
    || (a == 0xe2 && b == 0x81 && c == 0x9f)
    || (a == 0xe3 && b == 0x80 && c == 0x80)

-- How many bytes the white space takes that the text begins with; 0 if it begins with none.
space_ahead : Bytes → ℕ
unfolding is_ascii_space is_space_of_two is_space_of_three
space_ahead [] = 0
space_ahead (a ∷ []) = if is_ascii_space a then 1 else 0
space_ahead (a ∷ b ∷ []) = if is_ascii_space a then 1 else if is_space_of_two a b then 2 else 0
space_ahead (a ∷ b ∷ c ∷ r) =
    if is_ascii_space a
    then 1
    else if is_space_of_two a b
    then 2
    else if is_space_of_three a b c
    then 3
    else 0

-- The same for a text whose bytes come last first.
space_behind : Bytes → ℕ
unfolding is_ascii_space is_space_of_two is_space_of_three
space_behind [] = 0
space_behind (a ∷ []) = if is_ascii_space a then 1 else 0
space_behind (a ∷ b ∷ []) = if is_ascii_space a then 1 else if is_space_of_two b a then 2 else 0
space_behind (a ∷ b ∷ c ∷ r) =
    if is_ascii_space a
    then 1
    else if is_space_of_two b a
    then 2
    else if is_space_of_three c b a
    then 3
    else 0

-- Drops what `size` finds at the front, on fuel: the length of the text is enough.
drop_spaces : (Bytes → ℕ) → ℕ → Bytes → Bytes
drop_spaces size zero s = s
drop_spaces size (suc n) s =
    let rest = drop_spaces size n (drop (size s) s) in if size s == 0 then s else rest

unfoldable pub trim : Bytes → Bytes
unfolding space_ahead space_behind drop_spaces
trim s =
    let front = drop_spaces space_ahead (length s) s in
    reverse (drop_spaces space_behind (length front) (reverse front))

unfoldable pub trim_start : Bytes → Bytes
unfolding space_ahead drop_spaces
trim_start s = drop_spaces space_ahead (length s) s

drop_byte : ℕ → Bytes → Bytes
drop_byte c [] = []
drop_byte c (x ∷ xs) = let rest = drop_byte c xs in if x == c then rest else x ∷ xs

unfoldable pub trim_matches : ℕ → Bytes → Bytes
unfolding drop_byte
trim_matches c s = reverse (drop_byte c (reverse (drop_byte c s)))

drop_spaces-none : (size : Bytes → ℕ) (n : ℕ) (s : Bytes) → size s ≡ 0 → drop_spaces size n s ≡ s
unfolding drop_spaces
drop_spaces-none size zero s h = refl
drop_spaces-none size (suc n) s h = ground (arith, h)

space_ahead-visible : (b : ℕ) (s : Bytes) → 32 < b → b < 127 → space_ahead (b ∷ s) ≡ 0
unfolding space_ahead is_ascii_space is_space_of_two is_space_of_three
space_ahead-visible b [] above below = ground arith
space_ahead-visible b (c ∷ []) above below = ground arith
space_ahead-visible b (c ∷ d ∷ s) above below = ground arith

space_behind-visible : (b : ℕ) (s : Bytes) → 32 < b → b < 127 → space_behind (b ∷ s) ≡ 0
unfolding space_behind is_ascii_space is_space_of_two is_space_of_three
space_behind-visible b [] above below = ground arith
space_behind-visible b (c ∷ []) above below = ground arith
space_behind-visible b (c ∷ d ∷ s) above below = ground arith

-- A text that starts and ends with visible ASCII is not trimmed.
pub trim-visible :
    (first last : ℕ) (middle : Bytes)
    → 32 < first
    → first < 127
    → 32 < last
    → last < 127
    → trim (first ∷ (middle ++ last ∷ [])) ≡ first ∷ (middle ++ last ∷ [])
unfolding trim
trim-visible first last middle a b c d =
    let s = first ∷ (middle ++ last ∷ []) in
    let front =
      drop_spaces-none space_ahead (length s) s
        (space_ahead-visible first (middle ++ last ∷ []) a b) in
    let backwards : reverse s ≡ last ∷ reverse (first ∷ middle) =
      reverse-append (first ∷ middle) (last ∷ []) in
    let behind =
      drop_spaces-none space_behind (length s) (last ∷ reverse (first ∷ middle))
        (space_behind-visible last (reverse (first ∷ middle)) c d) in
    rw front (rw backwards (rw behind (rw (← backwards) (reverse-reverse s))))

drop_byte-same : (c : ℕ) (s : Bytes) → drop_byte c (c ∷ s) ≡ drop_byte c s
unfolding drop_byte
drop_byte-same c s = ground arith

drop_byte-free : (c : ℕ) (s : Bytes) → All (λ b. b ≢ c) s → drop_byte c s ≡ s
unfolding drop_byte
drop_byte-free c [] h = refl
drop_byte-free c (b ∷ s) (ne, h) = ground arith

drop_byte-free_first :
    (c : ℕ) (s : Bytes) (rest : Bytes)
    → 0 < length s
    → All (λ b. b ≢ c) s
    → drop_byte c (s ++ rest) ≡ s ++ rest
unfolding drop_byte
drop_byte-free_first c [] rest some_bytes h = absurd (omega arith)
drop_byte-free_first c (b ∷ s) rest some_bytes (ne, h) = ground arith

reverse_aux-All :
    (c : ℕ) (s done : Bytes)
    → All (λ b. b ≢ c) s
    → All (λ b. b ≢ c) done
    → All (λ b. b ≢ c) (reverse_aux s done)
reverse_aux-All c [] done h k = k
reverse_aux-All c (b ∷ s) done (ne, h) k = reverse_aux-All c s (b ∷ done) h (ne, k)

-- One byte on each side of a text that does not hold it is dropped, and no more.
pub trim_matches-around :
    (c : ℕ) (s : Bytes) → 0 < length s → All (λ b. b ≢ c) s → trim_matches c (c ∷ (s ++ c ∷ [])) ≡ s
unfolding trim_matches
trim_matches-around c s some_bytes h =
    let front : drop_byte c (c ∷ (s ++ c ∷ [])) ≡ s ++ c ∷ [] =
      drop_byte-same c (s ++ c ∷ []) ∙ drop_byte-free_first c s (c ∷ []) some_bytes h in
    let behind : drop_byte c (c ∷ reverse s) ≡ reverse s =
      drop_byte-same c (reverse s) ∙ drop_byte-free c (reverse s) (reverse_aux-All c s [] h tt) in
    rw front (rw (reverse-append s (c ∷ [])) (rw behind (reverse-reverse s)))
