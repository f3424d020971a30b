-- ===== src/Session/Startup/Uid.antt =====
-- The uid in the `AUTH EXTERNAL` line, read back.
use native.Mathlib.Numerals.{unary_clauses}
use dbus_router.Prelude.{
  ℕ, zero, suc, ◌+◌, ◌-◌, ◌*◌, ◌/◌, ◌%◌, ◌^◌, ◌<◌, ◌≡◌, refl, ap, ap₂, ◌∙◌, [], ◌∷◌, ◌++◌, All,
  arith, ltb, Bool-cases, inl, inr, if◌then◌else◌, Bytes,
}
use dbus_router.Text.Decimal.{decimal_on}
use dbus_router.Session.Startup.{hex_digit, hex_bytes, uid_hex}

-- the value of a digit of `{:x}`
unfoldable pub hex_value : ℕ → ℕ
hex_value c = if ltb c 58 then c - 48 else c - 87

-- the bytes that pairs of such digits stand for
unfoldable pub unhex : Bytes → Bytes
unhex [] = []
unhex (a ∷ []) = []
unhex (a ∷ b ∷ rest) = (16 * hex_value a + hex_value b) ∷ unhex rest

-- the number that decimal digits stand for, behind a number that is already read
unfoldable pub number_from : ℕ → Bytes → ℕ
number_from n [] = n
number_from n (d ∷ digits) = number_from (10 * n + (d - 48)) digits

hex_value-hex_digit : (n : ℕ) → n < 16 → hex_value (hex_digit n) ≡ n
unfolding hex_value hex_digit
hex_value-hex_digit n h = ground arith

unhex-hex_bytes : (bytes : Bytes) → All (λ b. b < 256) bytes → unhex (hex_bytes bytes) ≡ bytes
unfolding unhex hex_bytes
unhex-hex_bytes [] h = refl
unhex-hex_bytes (b ∷ bytes) (h, u) =
    ap₂ (λ (x : ℕ) (xs : Bytes). x ∷ xs)
      (omega (
        arith,
        hex_value-hex_digit (b / 16) (omega arith),
        hex_value-hex_digit (b % 16) (omega arith),
      ))
      (unhex-hex_bytes bytes u)

number_from-snoc :
    (n : ℕ) (digits : Bytes) (d : ℕ)
    → number_from n (digits ++ d ∷ []) ≡ 10 * number_from n digits + (d - 48)
unfolding number_from
number_from-snoc n [] d = refl
number_from-snoc n (x ∷ digits) d = number_from-snoc (10 * n + (x - 48)) digits d

tenth : (room n : ℕ) → n < 10 ^ suc room → n / 10 < 10 ^ room
tenth room n h = let h' = simp unary_clauses at h in omega arith

number_from-decimal_on : (room n : ℕ) → n < 10 ^ room → number_from 0 (decimal_on room n) ≡ n
unfolding decimal_on number_from
number_from-decimal_on zero n h = omega arith
number_from-decimal_on (suc room) n h = elim (Bool-cases (ltb n 10)) [
  | inl small ↦ rw small (omega arith)
  | inr large ↦ rw large (
      number_from-snoc 0 (decimal_on room (n / 10)) (48 + n % 10)
      ∙ omega (arith, number_from-decimal_on room (n / 10) (tenth room n h)))
]

snoc-All :
    (digits : Bytes) (d : ℕ)
    → All (λ b. b < 256) digits
    → d < 256
    → All (λ b. b < 256) (digits ++ d ∷ [])
snoc-All [] d a h = (h, tt)
snoc-All (x ∷ digits) d (k, a) h = (k, snoc-All digits d a h)

decimal_on-All : (room n : ℕ) → All (λ b. b < 256) (decimal_on room n)
unfolding decimal_on
decimal_on-All zero n = tt
decimal_on-All (suc room) n = elim (Bool-cases (ltb n 10)) [
  | inl small ↦ rw small (ground arith, tt)
  | inr large ↦ rw large (
      snoc-All (decimal_on room (n / 10)) (48 + n % 10) (decimal_on-All room (n / 10))
        (omega arith))
]

-- For every uid of 32 bits: the hexadecimal digits that `auth_host_bus` sends, read back as bytes, are the
-- decimal digits of the uid.
pub uid_hex_lem : (uid : ℕ) → uid < 2 ^ 32 → number_from 0 (unhex (uid_hex uid)) ≡ uid
unfolding uid_hex
uid_hex_lem uid h =
    ap (number_from 0) (unhex-hex_bytes (decimal_on 10 uid) (decimal_on-All 10 uid))
    ∙ number_from-decimal_on 10 uid (omega arith)
