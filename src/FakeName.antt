-- ===== src/FakeName.antt =====
-- src/fake_name.rs: unique names that carry the bus they belong to.
pub mod RoundTrip
pub mod Text
pub mod Shown
use dbus_router.Bus.{Bus}
use dbus_router.Prelude.{
  Bool, not, Option, none, some, ◌∷◌, ◌++◌, if◌then◌else◌, Bytes, codes, drop, length, is_some,
  starts_with,
}

abbrev pub host_prefix : Bytes
host_prefix = codes ":h."

abbrev pub sandbox_prefix : Bytes
sandbox_prefix = codes ":s."

unfoldable pub is_unique_name : Bytes → Bool
unfolding starts_with
is_unique_name name = starts_with (codes ":") name

unfoldable pub fake_prefix : Bus → Bytes
fake_prefix Bus.host = host_prefix
fake_prefix Bus.sandbox = sandbox_prefix

unfoldable pub to_fake_name : Bytes → Bus → Bytes
unfolding is_unique_name fake_prefix
to_fake_name real source =
    if not (is_unique_name real) then real else fake_prefix source ++ drop 1 real

unfoldable pub get_bus_from_fake_name : Bytes → Option Bus
unfolding starts_with
get_bus_from_fake_name name =
    if starts_with host_prefix name
    then some Bus.host
    else if starts_with sandbox_prefix name
    then some Bus.sandbox
    else none

abbrev restored : Bytes → Option Bus → Option (Bytes × Bus)
restored fake none = none
restored fake (some bus) = some (codes ":" ++ drop (length (fake_prefix bus)) fake, bus)

unfoldable pub from_fake_name : Bytes → Option (Bytes × Bus)
unfolding get_bus_from_fake_name fake_prefix
from_fake_name fake = restored fake (get_bus_from_fake_name fake)

unfoldable pub is_fake_unique_name : Bytes → Bool
unfolding get_bus_from_fake_name
is_fake_unique_name name = is_some (get_bus_from_fake_name name)
