-- ===== src/Text.antt =====
-- The parts of Rust's standard library for text that the program uses, on the bytes of the text.
pub mod Utf8
pub mod Trim
pub mod Decimal
pub mod Split
pub mod Replace
use dbus_router.Prelude.{
  ℕ, zero, suc, ◌-◌, Bool, Option, none, some, List, [], ◌∷◌, ◌++◌, ◌==◌, if◌then◌else◌, drop,
  length, Bytes, starts_with,
}

abbrev onto_first : ℕ → List Bytes → List Bytes
onto_first c [] = (c ∷ []) ∷ []
onto_first c (p ∷ ps) = (c ∷ p) ∷ ps

-- `s.split(c)`
unfoldable pub split : ℕ → Bytes → List Bytes
split c [] = [] ∷ []
split c (x ∷ xs) = let rest = split c xs in if x == c then [] ∷ rest else onto_first x rest

abbrev before : ℕ → Option (Bytes × Bytes) → Option (Bytes × Bytes)
before c none = none
before c (some (k, v)) = some (c ∷ k, v)

-- `s.split_once(c)`
unfoldable pub split_once : ℕ → Bytes → Option (Bytes × Bytes)
split_once c [] = none
split_once c (x ∷ xs) =
    let rest = split_once c xs in if x == c then some ([], xs) else before x rest

-- `parts.join(c)`
unfoldable pub join : ℕ → List Bytes → Bytes
join c [] = []
join c (p ∷ []) = p
join c (p ∷ q ∷ ps) = p ++ c ∷ join c (q ∷ ps)

-- `s.replace(old, new)` for an `old` that is not empty. The number counts the bytes of an occurrence
-- that are still to be passed over.
replace_from : Bytes → Bytes → ℕ → Bytes → Bytes
replace_from old new skip [] = []
replace_from old new (suc skip) (x ∷ xs) = replace_from old new skip xs
replace_from old new zero (x ∷ xs) = elim (starts_with old (x ∷ xs)) [
  | Bool.true ↦ new ++ replace_from old new (length old - 1) xs
  | Bool.false ↦ x ∷ replace_from old new zero xs
]

unfoldable pub replace : Bytes → Bytes → Bytes → Bytes
unfolding replace_from starts_with
replace old new s = replace_from old new zero s
