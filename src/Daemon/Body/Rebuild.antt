-- ===== src/Daemon/Body/Rebuild.antt =====
-- A message with another body: the header is kept but for the body's length.
use dbus_router.Message.Endian.{Order, u32_bytes}
use dbus_router.Message.{get_body_start}
use dbus_router.Prelude.{[], ◌∷◌, ◌++◌, Bytes, length, Result, ok, ◌>>=◌, slice}

unfoldable pub rebuild_message_with_body : Bytes → Order → Bytes → Result Bytes
rebuild_message_with_body raw endian new_body = do
  start ← get_body_start raw endian
  fixed ← slice raw 0 4
  fields ← slice raw 8 start
  ok (fixed ++ (u32_bytes endian (length new_body) ++ (fields ++ new_body)))

unfoldable pub rebuild_message_with_string : Bytes → Order → Bytes → Result Bytes
unfolding rebuild_message_with_body
rebuild_message_with_string raw endian new_str =
    rebuild_message_with_body raw endian (u32_bytes endian (length new_str) ++ (new_str ++ 0 ∷ []))
