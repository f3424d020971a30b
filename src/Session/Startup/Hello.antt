-- ===== src/Session/Startup/Hello.antt =====
-- `build_hello_call` of src/session.rs: the call of `Hello` that the router makes for itself.
use dbus_router.Message.Endian.{Order, u32_bytes}
use dbus_router.Message.{dbus_name}
use dbus_router.Prelude.{
  ℕ, ◌+◌, ◌-◌, ◌%◌, ◌^◌, List, [], ◌∷◌, ◌++◌, Bytes, codes, length, replicate, zvariant, Result, ok,
  or_err, padding_to_8, ◌>>=◌,
}
use dbus_router.Zvariant.{Zvariant}

unfoldable pub hello_with : Bytes → Bytes
hello_with fields_encoded =
    let array_len = (length fields_encoded + 2 ^ 64 - 4) % 2 ^ 64 in
    let header_end = (16 + array_len) % 2 ^ 64 in
    (b'l' ∷ 1 ∷ 0 ∷ 1 ∷ [])
    ++ (u32_bytes Order.little 0
        ++ (u32_bytes Order.little 1 ++ (fields_encoded ++ replicate (padding_to_8 header_end) 0)))

module _ (z : Zvariant) where
  abbrev pub hello_fields : List (ℕ × z.Value)
  hello_fields =
      (1, z.object_path_value (codes "/org/freedesktop/DBus"))
      ∷ (2, z.string_value dbus_name)
      ∷ (3, z.string_value (codes "Hello"))
      ∷ (6, z.string_value dbus_name)
      ∷ []

  unfoldable pub build_hello_call : Result Bytes
  build_hello_call = do
    fields_encoded ← or_err zvariant (z.encode_fields Order.little 12 hello_fields)
    ok (hello_with fields_encoded)
