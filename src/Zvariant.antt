-- ===== src/Zvariant.antt =====
-- The package `zvariant`, which the program calls and this repository does not hold: values, and the
-- encoding and decoding of the four types that the program uses. The numbers are the position in the
-- message at which the bytes stand. `none` is zvariant's error.
use dbus_router.Prelude.{ℕ, Option, List, Bytes}
use dbus_router.Message.Endian.{Order}

pub record Zvariant : Type 1 where
  pub Value : Type 0
  -- `Value::ObjectPath(p)` and `Value::Signature(s)`, `String::try_from` and `u32::try_from`
  pub object_path_of : Value → Option Bytes
  pub signature_of : Value → Option Bytes
  pub string_of : Value → Option Bytes
  pub u32_of : Value → Option ℕ
  -- the values that the program builds
  pub u32_value : ℕ → Value
  pub signature_value : Bytes → Value
  pub string_value : Bytes → Value
  pub object_path_value : Bytes → Value
  -- `Vec<(u8, Value)>`
  pub decode_fields : Order → ℕ → Bytes → Option (List (ℕ × Value))
  pub encode_fields : Order → ℕ → List (ℕ × Value) → Option Bytes
  -- `Vec<String>`
  pub decode_names : Order → ℕ → Bytes → Option (List Bytes)
  pub encode_names : Order → ℕ → List Bytes → Option Bytes
  -- `(String, String, String)`
  pub decode_owners : Order → ℕ → Bytes → Option (Bytes × Bytes × Bytes)
  pub encode_owners : Order → ℕ → Bytes × Bytes × Bytes → Option Bytes
