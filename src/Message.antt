-- ===== src/Message.antt =====
-- src/dbus/message.rs: the message types, and what is read out of a message's raw bytes. The wire
-- numbers are in `Endian`, the fixed 16 bytes in `Prologue`, the header fields in `Fields`.
pub mod Endian
pub mod Prologue
pub mod Fields
pub mod Frame
pub mod Reading
use dbus_router.Prelude.{
  ℕ, ◌+◌, Bool, ◌&&◌, Option, none, some, List, ◌==◌, ltb, if◌then◌else◌, Bytes, codes, str_eq,
  length, Result, ok, ◌>>=◌, slice, slice_from, padding_to_8,
}
use dbus_router.Text.Utf8.{from_utf8}
use Endian.{Order, read_u32}
use Prologue.{MessageType, fixed_header_size, min_header_size}

pub record MessageHeader : Type 0 where
  pub endian : Order
  pub msg_type : MessageType
  pub flags : ℕ
  pub serial : ℕ
  pub body_len : ℕ
  pub destination : Option Bytes
  pub reply_serial : Option ℕ
  pub sender : Option Bytes
  pub interface : Option Bytes
  pub member : Option Bytes
  pub path : Option Bytes
  pub signature : Option Bytes
  pub unix_fds : Option ℕ

-- A descriptor is the number that stands for it; sharing by `Arc` copies the number.
pub record Message : Type 0 where
  pub header : MessageHeader
  pub raw : Bytes
  pub fds : List ℕ

abbrev pub dbus_name : Bytes
dbus_name = codes "org.freedesktop.DBus"

-- `field.as_deref() == Some(text)`
unfoldable pub is_text : Option Bytes → Bytes → Bool
is_text none text = Bool.false
is_text (some s) text = str_eq s text

unfoldable pub is_request_name : Message → Bool
unfolding is_text
is_request_name msg =
    is_text msg.header.destination dbus_name
    && is_text msg.header.interface dbus_name
    && is_text msg.header.member (codes "RequestName")

-- Of raw bytes: where the body starts, behind the header fields and aligned to 8.
-- `get_body_start` of src/dbus/daemon.rs is the same function.
unfoldable pub get_body_start : Bytes → Order → Result ℕ
get_body_start raw endian = do
  rest ← slice_from raw fixed_header_size
  array_len ← read_u32 endian rest
  let header_end = min_header_size + array_len
  ok (header_end + padding_to_8 header_end)

unfoldable pub body_start : Message → Result ℕ
unfolding get_body_start
body_start msg = get_body_start msg.raw msg.header.endian

-- The string at `start`, once its length is known.
abbrev pub text_at : Bytes → ℕ → ℕ → Result (Option Bytes)
text_at raw start len =
    if ltb (length raw) (start + len)
    then ok none
    else (do text ← slice raw start (start + len); ok (from_utf8 text))

unfoldable pub extract_name_from_body : Message → Result (Option Bytes)
unfolding body_start
extract_name_from_body msg = do
  start ← body_start msg
  if ltb (length msg.raw) (start + 4) then ok none else do
    rest ← slice_from msg.raw start
    str_len ← read_u32 msg.header.endian rest
    text_at msg.raw (start + 4) str_len

unfoldable pub extract_string_from_body : Message → Result (Option Bytes)
unfolding extract_name_from_body
extract_string_from_body msg = extract_name_from_body msg
