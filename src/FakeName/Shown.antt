-- ===== src/FakeName/Shown.antt =====
-- Which names are read as fake names.
use dbus_router.Bus.{Bus}
use dbus_router.FakeName.{is_unique_name, to_fake_name, get_bus_from_fake_name, from_fake_name}
use dbus_router.FakeName.RoundTrip.{to_fake_name-from_fake_name}
use dbus_router.Prelude.{
  ◌+◌, ◌≡◌, refl, ap, ◌∙◌, sym, some, true, false, [], ◌∷◌, arith, Bytes, length, strip_prefix,
  str_eq, Bool-cases, inl, inr, str_eq_iff,
}

-- The name is one that a bus's unique name is shown under.
pub record IsShown (name : Bytes) (bus : Bus) : Type 0 where
  pub real : Bytes
  pub real_unique : is_unique_name real ≡ true
  pub shown_as : name ≡ to_fake_name real bus

pub get_bus_from_fake_name-to_fake_name :
    (real : Bytes) (bus : Bus)
    → is_unique_name real ≡ true
    → get_bus_from_fake_name (to_fake_name real bus) ≡ some bus
unfolding is_unique_name to_fake_name get_bus_from_fake_name strip_prefix
get_bus_from_fake_name-to_fake_name [] bus h = ground arith
get_bus_from_fake_name-to_fake_name (c ∷ r) Bus.host h = ground arith
get_bus_from_fake_name-to_fake_name (c ∷ r) Bus.sandbox h = ground arith

from_fake_name-get_bus :
    (name : Bytes) (bus : Bus)
    → get_bus_from_fake_name name ≡ some bus
    → (real : Bytes) × (from_fake_name name ≡ some (real, bus))
unfolding from_fake_name
from_fake_name-get_bus name bus h = rw h (_, refl)

pub IsShown-get_bus :
    (name : Bytes) (bus : Bus) → get_bus_from_fake_name name ≡ some bus → IsShown name bus
IsShown-get_bus name bus h =
    let (real, e) = from_fake_name-get_bus name bus h in
    let (shown, unique) = to_fake_name-from_fake_name name real bus e in
    record { real = real; real_unique = unique; shown_as = sym shown }

pub get_bus-IsShown :
    {name : Bytes} {bus : Bus} → IsShown name bus → get_bus_from_fake_name name ≡ some bus
get_bus-IsShown {name} {bus} s =
    ap get_bus_from_fake_name s.shown_as
    ∙ get_bus_from_fake_name-to_fake_name s.real bus s.real_unique

-- A fake name is longer than the name it shows, so it is another one.
pub length-to_fake_name :
    (real : Bytes) (bus : Bus)
    → is_unique_name real ≡ true
    → length (to_fake_name real bus) ≡ length real + 2
unfolding is_unique_name to_fake_name strip_prefix
length-to_fake_name [] bus h = ground arith
length-to_fake_name (c ∷ r) Bus.host h = ground arith
length-to_fake_name (c ∷ r) Bus.sandbox h = ground arith

pub to_fake_name_ne :
    (real : Bytes) (bus : Bus)
    → is_unique_name real ≡ true
    → str_eq (to_fake_name real bus) real ≡ false
to_fake_name_ne real bus h = elim (Bool-cases (str_eq (to_fake_name real bus) real)) [
  | inl same ↦ absurd (
      omega (
        arith,
        length-to_fake_name real bus h,
        ap length ((str_eq_iff (to_fake_name real bus) real).0 same),
      ))
  | inr other ↦ other
]

-- A name that is read as one of a bus's is read as that bus's.
pub get_bus-from_fake_name :
    (fake real : Bytes) (bus : Bus)
    → from_fake_name fake ≡ some (real, bus)
    → get_bus_from_fake_name fake ≡ some bus
get_bus-from_fake_name fake real bus h =
    let (shown, unique) = to_fake_name-from_fake_name fake real bus h in
    ap get_bus_from_fake_name (sym shown) ∙ get_bus_from_fake_name-to_fake_name real bus unique
