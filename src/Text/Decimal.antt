-- ===== src/Text/Decimal.antt =====
-- `n.to_string()` of a number with no more digits than `room`.
use dbus_router.Prelude.{ℕ, zero, suc, ◌+◌, ◌/◌, ◌%◌, [], ◌∷◌, ◌++◌, ltb, if◌then◌else◌, Bytes}

unfoldable pub decimal_on : ℕ → ℕ → Bytes
decimal_on zero n = []
decimal_on (suc room) n =
    let front = decimal_on room (n / 10) in
    if ltb n 10 then (48 + n) ∷ [] else front ++ (48 + n % 10) ∷ []
