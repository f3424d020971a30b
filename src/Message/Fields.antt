-- ===== src/Message/Fields.antt =====
-- `parse_header_fields`: what the program keeps of the header fields that `zvariant` decodes.
use dbus_router.Prelude.{
  ℕ, Option, none, some, List, [], ◌∷◌, ◌++◌, ◌==◌, if◌then◌else◌, Bytes, length,
}
use dbus_router.Message.Endian.{Order, u32_bytes}
use dbus_router.Zvariant.{Zvariant}

pub record ParsedHeaderFields : Type 0 where
  pub destination : Option Bytes
  pub reply_serial : Option ℕ
  pub sender : Option Bytes
  pub interface : Option Bytes
  pub member : Option Bytes
  pub path : Option Bytes
  pub signature : Option Bytes
  pub unix_fds : Option ℕ

abbrev pub no_fields : ParsedHeaderFields
no_fields = record {
  destination = none;
  reply_serial = none;
  sender = none;
  interface = none;
  member = none;
  path = none;
  signature = none;
  unix_fds = none;
}

-- An assignment that is made only when there is a value.
abbrev or_keep : Option Bytes → Option Bytes → Option Bytes
or_keep (some new) old = some new
or_keep none old = old

module _ (z : Zvariant) where
  set_field : ParsedHeaderFields → ℕ → z.Value → ParsedHeaderFields
  set_field result code value =
      if code == 1
      then record result { path = or_keep (z.object_path_of value) result.path }
      else if code == 2
      then record result { interface = z.string_of value }
      else if code == 3
      then record result { member = z.string_of value }
      else if code == 5
      then record result { reply_serial = z.u32_of value }
      else if code == 6
      then record result { destination = z.string_of value }
      else if code == 7
      then record result { sender = z.string_of value }
      else if code == 9
      then record result { unix_fds = z.u32_of value }
      else if code == 8
      then record result { signature = or_keep (z.signature_of value) result.signature }
      else result

  set_fields : ParsedHeaderFields → List (ℕ × z.Value) → ParsedHeaderFields
  set_fields result [] = result
  set_fields result ((code, value) ∷ fields) = set_fields (set_field result code value) fields

  collected : Option (List (ℕ × z.Value)) → ParsedHeaderFields
  collected none = no_fields
  collected (some fields) = set_fields no_fields fields

  -- It never fails: fields that cannot be decoded are read as none at all.
  unfoldable pub parse_header_fields : Bytes → Order → ParsedHeaderFields
  unfolding collected set_fields set_field
  parse_header_fields buf endian =
      collected (z.decode_fields endian 12 (u32_bytes endian (length buf) ++ buf))
