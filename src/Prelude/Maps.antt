-- ===== src/Prelude/Maps.antt =====
-- `HashMap` and `HashSet`. The program never iterates over one, so a map is an association list
-- with at most one entry for a key, and a set is a list.
use Prim.Native.Nat.{ℕ}
use mathlib.Core.Path.{◌≡◌}
use mathlib.Core.Bool.{Bool, false, ◌||◌}
use mathlib.Core.List.{List, [], ◌∷◌}
use mathlib.Core.Option.{Option, none, some}
use native.Mathlib.Omega.{arith}
use dbus_router.Prelude.Tests.{◌==◌, if◌then◌else◌}
use dbus_router.Prelude.Strings.{Bytes, str_eq, str_eq_iff}

-- `HashMap<u32, V>`
abbrev pub Table {ℓ} : Type ℓ → Type ℓ
Table V = List (ℕ × V)

module _ {ℓ} {V : Type ℓ} where
  -- `m.get(&k)`
  unfoldable pub get : Table V → ℕ → Option V
  get [] k = none
  get ((j, v) ∷ m) k = if j == k then some v else get m k

  -- `m.remove(&k)`, the map that is left
  unfoldable pub remove : Table V → ℕ → Table V
  remove [] k = []
  remove ((j, v) ∷ m) k = let rest = remove m k in if j == k then rest else (j, v) ∷ rest

  -- `m.insert(k, v)`
  unfoldable pub insert : Table V → ℕ → V → Table V
  insert m k v = (k, v) ∷ remove m k

  pub get-remove : (m : Table V) (k j : ℕ) → get (remove m k) j ≡ (if k == j then none else get m j)
  unfolding get remove
  get-remove [] k j = ground arith
  get-remove ((i, v) ∷ m) k j = ground (arith, get-remove m k j)

  pub get-insert :
      (m : Table V) (k j : ℕ) (v : V) → get (insert m k v) j ≡ (if k == j then some v else get m j)
  unfolding get insert
  get-insert m k j v = ground (arith, get-remove m k j)

-- `HashSet<String>`
unfoldable pub contains : List Bytes → Bytes → Bool
contains [] s = false
contains (x ∷ xs) s = str_eq x s || contains xs s

-- `set.insert(s)`, the set that is left; an element that is there stays
unfoldable pub add : Bytes → List Bytes → List Bytes
add s xs = if contains xs s then xs else s ∷ xs

pub contains-add :
    (s t : Bytes) (xs : List Bytes) → contains (add s xs) t ≡ (str_eq s t || contains xs t)
unfolding contains add
contains-add s t xs = ground (arith, str_eq_iff s t)
