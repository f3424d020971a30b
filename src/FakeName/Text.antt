-- ===== src/FakeName/Text.antt =====
-- Fake names of names that are UTF-8 are UTF-8.
use dbus_router.Bus.{Bus}
use dbus_router.FakeName.{is_unique_name, to_fake_name}
use dbus_router.Prelude.{◌≡◌, true, [], ◌∷◌, arith, Bytes, strip_prefix}
use dbus_router.Text.Utf8.{is_utf8, is_utf8-ascii}

pub is_utf8-to_fake_name :
    (real : Bytes) (bus : Bus)
    → is_unique_name real ≡ true
    → is_utf8 (to_fake_name real bus) ≡ is_utf8 real
unfolding is_unique_name to_fake_name strip_prefix
is_utf8-to_fake_name [] bus h = ground arith
is_utf8-to_fake_name (c ∷ r) Bus.host h = ground (
  arith,
  is_utf8-ascii b':' (b'h' ∷ b'.' ∷ r),
  is_utf8-ascii b'h' (b'.' ∷ r),
  is_utf8-ascii b'.' r,
  is_utf8-ascii c r,
)
is_utf8-to_fake_name (c ∷ r) Bus.sandbox h = ground (
  arith,
  is_utf8-ascii b':' (b's' ∷ b'.' ∷ r),
  is_utf8-ascii b's' (b'.' ∷ r),
  is_utf8-ascii b'.' r,
  is_utf8-ascii c r,
)
