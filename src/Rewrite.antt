-- ===== src/Rewrite.antt =====
-- src/dbus/rewrite.rs: replacing one string of the header fields inside the raw bytes, and with it the
-- sender or the destination of a message. Offsets are 64-bit and cannot wrap, but for the one that
-- `new_array_len` writes out. Of an overflow check in a debug build nothing is modelled.
pub mod Scan
pub mod Encode
pub mod Pieces
pub mod Rebuild
pub mod Placed
pub mod Replace
pub mod Header
use dbus_router.Bus.{Bus}
use dbus_router.FakeName.{from_fake_name, to_fake_name}
use dbus_router.Message.Endian.{Order, read_u32, u32_bytes}
use dbus_router.Message.{Message}
use dbus_router.Prelude.{
  ℕ, ◌+◌, ◌-◌, ◌%◌, ◌^◌, Option, none, some, [], ◌∷◌, ◌++◌, ltb, if◌then◌else◌, Bytes, length,
  replicate, str_eq, Error, protocol, Result, ok, err, ◌>>=◌, slice, slice_from, padding_to_8,
}
use Scan.{ScanResult, found, not_found, out_of_fuel, find_field}

-- The raw bytes with the string at `pos` replaced: the array length, the padding behind the string
-- and the padding before the body are made anew.
unfoldable pub rebuild : Bytes → Order → ℕ → ℕ → Bytes → Result Bytes
rebuild raw endian array_len pos new_value =
    let fields_end = 16 + array_len in
    if ltb (length raw) (pos + 4) then err protocol else do
      old_bytes ← slice_from raw pos
      old_len ← read_u32 endian old_bytes
      let old_str_end = pos + 4 + old_len + 1
      let new_str_data = u32_bytes endian (length new_value) ++ (new_value ++ 0 ∷ [])
      let old_next_field_start = old_str_end + padding_to_8 old_str_end
      let has_more_fields = ltb old_next_field_start fields_end
      let new_str_end = 16 + (pos - 16) + length new_str_data
      let new_internal_padding = (if has_more_fields then padding_to_8 new_str_end else 0)
      let old_field_total =
          (if has_more_fields
            then old_str_end - pos + padding_to_8 old_str_end
            else old_str_end - pos)
      let new_field_total = length new_str_data + new_internal_padding
      let new_array_len = (array_len + new_field_total + 2 ^ 64 - old_field_total) % 2 ^ 64
      let new_fields_end = 16 + new_array_len
      let old_body_start = fields_end + padding_to_8 fields_end
      fixed ← slice raw 0 12
      fields_before ← slice raw 16 pos
      fields_after ← (if has_more_fields then slice raw old_next_field_start fields_end else ok [])
      body ← slice_from raw old_body_start
      ok (
          fixed
          ++ (u32_bytes endian new_array_len
              ++ (fields_before
                  ++ (new_str_data
                      ++ (replicate new_internal_padding 0
                          ++ (fields_after
                              ++ (replicate (padding_to_8 new_fields_end) 0 ++ body)))))))

abbrev rewrite_found : Bytes → Order → ℕ → Bytes → ScanResult → Result Bytes
rewrite_found raw endian array_len new_value (found pos) =
    rebuild raw endian array_len pos new_value
rewrite_found raw endian array_len new_value not_found = ok raw
rewrite_found raw endian array_len new_value out_of_fuel = ok raw

unfoldable pub rewrite_header_field : Bytes → Order → ℕ → Bytes → Result Bytes
rewrite_header_field raw endian field_code new_value = do
  rest ← slice_from raw 12
  array_len ← read_u32 endian rest
  place ← find_field raw endian field_code array_len
  rewrite_found raw endian array_len new_value place

pub data RewriteDirection : Type 0 where
  to_client to_upstream : RewriteDirection

rewrite_sender : Message → Bus → Option Bytes → Result Message
rewrite_sender msg source none = ok msg
rewrite_sender msg source (some sender) =
    let fake_sender = to_fake_name sender source in
    if str_eq fake_sender sender then ok msg else do
      raw ← rewrite_header_field msg.raw msg.header.endian 7 fake_sender
      ok (record msg { raw = raw; header = record msg.header { sender = some fake_sender } })

rewrite_to_real : Message → Option (Bytes × Bus) → Result Message
rewrite_to_real msg none = ok msg
rewrite_to_real msg (some (real_dest, _)) = do
  raw ← rewrite_header_field msg.raw msg.header.endian 6 real_dest
  ok (record msg { raw = raw; header = record msg.header { destination = some real_dest } })

rewrite_destination : Message → Option Bytes → Result Message
unfolding rewrite_to_real
rewrite_destination msg none = ok msg
rewrite_destination msg (some dest) = rewrite_to_real msg (from_fake_name dest)

-- The message as it is left. An error leaves it as it was.
unfoldable pub rewrite_message_header : Message → RewriteDirection → Bus → Result Message
unfolding rewrite_sender rewrite_destination
rewrite_message_header msg to_client source = rewrite_sender msg source msg.header.sender
rewrite_message_header msg to_upstream source = rewrite_destination msg msg.header.destination
