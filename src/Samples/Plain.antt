-- ===== src/Samples/Plain.antt =====
-- Concrete texts that do not hold a byte.
use dbus_router.Prelude.{ℕ, ◌≡◌, ◌≢◌, Bool, true, [], ◌∷◌, ◌==◌, ◌&&◌, not, All, arith, Bytes}

unfoldable pub without : ℕ → Bytes → Bool
without c [] = true
without c (b ∷ bytes) = not (b == c) && without c bytes

pub without-All : (c : ℕ) (bytes : Bytes) → without c bytes ≡ true → All (λ b. b ≢ c) bytes
unfolding without
without-All c [] h = tt
without-All c (b ∷ bytes) h = (ground arith, without-All c bytes (ground arith))
