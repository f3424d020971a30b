-- ===== src/FakeName/RoundTrip.antt =====
-- The fake names of the two buses are a faithful copy of their unique names.
use dbus_router.Bus.{Bus}
use dbus_router.Prelude.{◌≡◌, some, true, [], ◌∷◌, arith, Bytes, strip_prefix}
use dbus_router.FakeName.{is_unique_name, to_fake_name, from_fake_name}

-- The fake name of a unique name at a bus is read as that name and that bus, also where the
-- unique name looks like a fake name itself.
pub from_fake_name-to_fake_name :
    (real : Bytes) (bus : Bus)
    → is_unique_name real ≡ true
    → from_fake_name (to_fake_name real bus) ≡ some (real, bus)
unfolding is_unique_name to_fake_name from_fake_name strip_prefix
from_fake_name-to_fake_name [] bus h = ground arith
from_fake_name-to_fake_name (c ∷ r) Bus.host h = ground arith
from_fake_name-to_fake_name (c ∷ r) Bus.sandbox h = ground arith

-- Where a name is read as the fake name of a real name at a bus, the real name is a unique name,
-- and its fake name at that bus is the name that was read.
pub to_fake_name-from_fake_name :
    (fake real : Bytes) (bus : Bus)
    → from_fake_name fake ≡ some (real, bus)
    → (to_fake_name real bus ≡ fake) × (is_unique_name real ≡ true)
unfolding is_unique_name to_fake_name from_fake_name strip_prefix
to_fake_name-from_fake_name [] real bus h = ground arith
to_fake_name-from_fake_name (a ∷ []) real bus h = ground arith
to_fake_name-from_fake_name (a ∷ b ∷ []) real bus h = ground arith
to_fake_name-from_fake_name (a ∷ b ∷ c ∷ r) real bus h = ground arith
