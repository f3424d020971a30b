-- ===== src/Message/Prologue.antt =====
-- `MessageType` and `Prologue`: the 16 bytes that every message starts with.
use dbus_router.Prelude.{
  ℕ, ◌+◌, ◌*◌, ltb, ◌==◌, if◌then◌else◌, Bytes, protocol, Result, ok, err, ◌>>=◌, index, slice,
  padding_to_8, not,
}
use dbus_router.Message.Endian.{Order, read_u32}

pub data MessageType : Type 0 where
  invalid method_call method_return error signal : MessageType

-- `impl From<u8> for MessageType`
unfoldable pub message_type : ℕ → MessageType
message_type v =
    if v == 1
    then method_call
    else if v == 2
    then method_return
    else if v == 3
    then error
    else if v == 4
    then signal
    else invalid

abbrev pub max_message_size : ℕ
max_message_size = 64 * 1024 * 1024

abbrev pub fixed_header_size : ℕ
fixed_header_size = 12

abbrev pub min_header_size : ℕ
min_header_size = 16

pub record Prologue : Type 0 where
  pub endian : Order
  pub msg_type : MessageType
  pub flags : ℕ
  pub serial : ℕ
  pub body_len : ℕ
  pub array_len : ℕ

endian_of : ℕ → Result Order
endian_of b =
    if b == b'l' then ok Order.little else if b == b'B' then ok Order.big else err protocol

abbrev u32_at : Order → Bytes → ℕ → Result ℕ
u32_at endian head from = do bytes ← slice head from (from + 4); read_u32 endian bytes

unfoldable pub parse : Bytes → Result Prologue
unfolding endian_of message_type
parse head = do
  marker ← index head 0
  endian ← endian_of marker
  protocol_version ← index head 3
  if not (protocol_version == 1) then err protocol else do
    body_len ← u32_at endian head 4
    if ltb max_message_size body_len then err protocol else do
      array_len ← u32_at endian head 12
      if ltb max_message_size array_len then err protocol else do
        type_byte ← index head 1
        flags ← index head 2
        serial ← u32_at endian head 8
        ok (record {
          endian = endian;
          msg_type = message_type type_byte;
          flags = flags;
          serial = serial;
          body_len = body_len;
          array_len = array_len;
        })

abbrev pub header_end : Prologue → ℕ
header_end p = min_header_size + p.array_len

abbrev pub padding : Prologue → ℕ
padding p = padding_to_8 (header_end p)

abbrev pub total_len : Prologue → ℕ
total_len p = header_end p + padding p + p.body_len
