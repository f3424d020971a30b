-- ===== src/Message/Endian.antt =====
-- Byte order: `Endian::read_u32`, and the standard library's `to_le_bytes` and `to_be_bytes`.
use dbus_router.Prelude.{
  ℕ, ◌+◌, ◌*◌, ◌/◌, ◌%◌, ◌^◌, ◌<◌, ◌≡◌, ap, [], ◌∷◌, ◌++◌, arith, Bytes, Result, ok, panic,
}

-- `enum Endian`
pub data Order : Type 0 where
  little big : Order

-- `buf[..4]` panics on fewer than four bytes
unfoldable pub read_u32 : Order → Bytes → Result ℕ
read_u32 Order.little (a ∷ b ∷ c ∷ d ∷ _) = ok (a + 256 * b + 65536 * c + 16777216 * d)
read_u32 Order.big (a ∷ b ∷ c ∷ d ∷ _) = ok (d + 256 * c + 65536 * b + 16777216 * a)
read_u32 _ _ = panic

-- `(n as u32).to_le_bytes()` or `to_be_bytes`, by the byte order
unfoldable pub u32_bytes : Order → ℕ → Bytes
u32_bytes Order.little n = n % 256 ∷ n / 256 % 256 ∷ n / 65536 % 256 ∷ n / 16777216 % 256 ∷ []
u32_bytes Order.big n = n / 16777216 % 256 ∷ n / 65536 % 256 ∷ n / 256 % 256 ∷ n % 256 ∷ []

four_bytes :
    (n : ℕ)
    → n < 2 ^ 32
    → n % 256 + 256 * (n / 256 % 256) + 65536 * (n / 65536 % 256) + 16777216 * (n / 16777216 % 256)
      ≡ n
four_bytes n h = omega arith

-- A number below 2^32 that is written in a byte order is read back in it, whatever follows.
pub read_u32-u32_bytes :
    (order : Order) (n : ℕ) (rest : Bytes)
    → n < 2 ^ 32
    → read_u32 order (u32_bytes order n ++ rest) ≡ ok n
unfolding read_u32 u32_bytes
read_u32-u32_bytes Order.little n rest h = ap ok (four_bytes n h)
read_u32-u32_bytes Order.big n rest h = ap ok (four_bytes n h)
