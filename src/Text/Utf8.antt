-- ===== src/Text/Utf8.antt =====
-- `String::from_utf8` and `String::from_utf8_lossy`, by the standard library's walk over the bytes:
-- a character's bytes, or the longest start of one, which the lossy reading replaces by U+FFFD.
use dbus_router.Prelude.{
  ℕ, zero, suc, ◌<◌, Bool, true, false, ◌&&◌, ◌||◌, ◌≡◌, refl, Option, none, some, [], ◌∷◌, ◌++◌,
  arith, ltb, leb, ◌==◌, if◌then◌else◌, Bytes, length, get_elem?, take, drop, take-append-drop,
}

abbrev within : ℕ → ℕ → ℕ → Bool
within lo hi b = leb lo b && leb b hi

-- `safe_get`: 0 behind the end
abbrev at : Bytes → ℕ → ℕ
at s i = elim (get_elem? s i) [ none ↦ 0 | some b ↦ b ]

is_continuation : ℕ → Bool
is_continuation = within 0x80 0xbf

-- the second byte of a character of three bytes, and of four
second_of_three : ℕ → ℕ → Bool
second_of_three a b =
    (a == 0xe0 && within 0xa0 0xbf b)
    || (within 0xe1 0xec a && within 0x80 0xbf b)
    || (a == 0xed && within 0x80 0x9f b)
    || (within 0xee 0xef a && within 0x80 0xbf b)

second_of_four : ℕ → ℕ → Bool
second_of_four a b =
    (a == 0xf0 && within 0x90 0xbf b)
    || (within 0xf1 0xf3 a && within 0x80 0xbf b)
    || (a == 0xf4 && within 0x80 0x8f b)

-- Of a text that begins with byte `a` and goes on with `r`: whether a character stands first, and
-- how many bytes of `r` belong to it or to the invalid piece.
utf8_chunk : ℕ → Bytes → Bool × ℕ
unfolding is_continuation second_of_three second_of_four
utf8_chunk a r =
    if ltb a 0x80
    then (true, 0)
    else if within 0xc2 0xdf a
    then (if is_continuation (at r 0) then (true, 1) else (false, 0))
    else if within 0xe0 0xef a
    then (if second_of_three a (at r 0)
        then (if is_continuation (at r 1) then (true, 2) else (false, 1))
        else (false, 0))
    else if within 0xf0 0xf4 a
    then (if second_of_four a (at r 0)
        then (if is_continuation (at r 1)
            then (if is_continuation (at r 2) then (true, 3) else (false, 2))
            else (false, 1))
        else (false, 0))
    else (false, 0)

-- The first number is fuel: the length of the text is enough.
valid_on : ℕ → Bytes → Bool
valid_on fuel [] = true
valid_on zero (a ∷ r) = false
valid_on (suc n) (a ∷ r) = let (valid, k) = utf8_chunk a r in valid && valid_on n (drop k r)

unfoldable pub is_utf8 : Bytes → Bool
unfolding valid_on utf8_chunk
is_utf8 s = valid_on (length s) s

-- `String::from_utf8(v).ok()`
unfoldable pub from_utf8 : Bytes → Option Bytes
from_utf8 s = if is_utf8 s then some s else none

replacement : Bytes
replacement = 0xef ∷ 0xbf ∷ 0xbd ∷ []

lossy_on : ℕ → Bytes → Bytes
lossy_on fuel [] = []
lossy_on zero (a ∷ r) = []
lossy_on (suc n) (a ∷ r) =
    let (valid, k) = utf8_chunk a r in
    (if valid then a ∷ take k r else replacement) ++ lossy_on n (drop k r)

-- `String::from_utf8_lossy(v)`
unfoldable pub from_utf8_lossy : Bytes → Bytes
unfolding lossy_on utf8_chunk replacement
from_utf8_lossy s = lossy_on (length s) s

lossy_on-valid_on : (n : ℕ) (s : Bytes) → valid_on n s ≡ true → lossy_on n s ≡ s
unfolding valid_on lossy_on
lossy_on-valid_on n [] h = refl
lossy_on-valid_on zero (a ∷ r) h = ground arith
lossy_on-valid_on (suc n) (a ∷ r) h =
    ground (
      arith,
      lossy_on-valid_on n (drop (utf8_chunk a r).1 r),
      take-append-drop (utf8_chunk a r).1 r,
    )

-- A text that is UTF-8 is read as it is.
pub from_utf8_lossy-is_utf8 : (s : Bytes) → is_utf8 s ≡ true → from_utf8_lossy s ≡ s
from_utf8_lossy-is_utf8 s h = unfold from_utf8_lossy is_utf8 in lossy_on-valid_on (length s) s h

-- A text that starts with an ASCII byte is UTF-8 exactly if the rest is.
pub is_utf8-ascii : (c : ℕ) (s : Bytes) → c < 0x80 → is_utf8 (c ∷ s) ≡ is_utf8 s
unfolding is_utf8
is_utf8-ascii c s h = ground arith
