-- ===== src/Daemon/Body/Frames.antt =====
-- What the body rewriting does to a well-formed message.
use mathlib.Core.List.{append_assoc}
use dbus_router.Bus.{Bus}
use dbus_router.Daemon.Body.Rebuild.{rebuild_message_with_body, rebuild_message_with_string}
use dbus_router.Daemon.Body.{
  first_string, rewrite_single_name_response, rewrite_unique_name_request,
}
use dbus_router.FakeName.{is_unique_name, to_fake_name, from_fake_name}
use dbus_router.Message.Endian.{Order, read_u32, u32_bytes, read_u32-u32_bytes}
use dbus_router.Message.Frame.{
  Frame, IsFrame, IsFramed, bytes_of, before_body, length-before_body, bytes_of-before_body,
  header_length, length-bytes_of, length-u32_bytes, get_body_start-bytes_of,
  slice_from-bytes_of_body,
}
use dbus_router.Message.{Message, body_start, extract_name_from_body}
use dbus_router.Prelude.{
  ◌+◌, ◌^◌, ◌<◌, ◌≡◌, refl, sym, ◌∙◌, ap, true, some, [], ◌∷◌, ◌++◌, arith, Bytes, length,
  length-append, ok, slice_from, slice, slice_split,
}
use dbus_router.Text.Utf8.{is_utf8, from_utf8, from_utf8_lossy-is_utf8}

-- The same message with another body.
abbrev pub with_body : Frame → Bytes → Frame
with_body f body = record f { body = body }

-- A body that is one string: its length, its bytes, and what follows it, a null byte at least.
unfoldable pub string_body : Order → Bytes → Bytes → Bytes
string_body order text rest = u32_bytes order (length text) ++ (text ++ rest)

-- serial, header fields and padding
abbrev fields_part : Order → Frame → Bytes
fields_part order f = f.serial ++ (u32_bytes order (length f.fields) ++ (f.fields ++ f.pad))

length-fields_part :
    (order : Order) (f : Frame) → IsFrame f → length (fields_part order f) + 8 ≡ header_length f
length-fields_part order f w = omega (
  arith,
  w.serial_length,
  length-append f.serial (u32_bytes order (length f.fields) ++ (f.fields ++ f.pad)),
  length-append (u32_bytes order (length f.fields)) (f.fields ++ f.pad),
  length-append f.fields f.pad,
  length-u32_bytes order (length f.fields),
)

module _ (order : Order) (f : Frame) (w : IsFrame f) where
  -- In a message whose raw bytes are laid out as the specification has it, rebuilding with a new
  -- body changes the body and the length of the body only: type, flags, serial, header fields and
  -- padding are kept.
  pub rebuild_message_with_body-bytes_of :
      (new_body : Bytes)
      → rebuild_message_with_body (bytes_of order f) order new_body
        ≡ ok (bytes_of order (with_body f new_body))
  unfolding rebuild_message_with_body bytes_of
  rebuild_message_with_body-bytes_of new_body =
      let fields_slice : slice (bytes_of order f) 8 (header_length f) ≡ ok (fields_part order f) =
        slice_split (bytes_of order f) (f.fixed ++ u32_bytes order (length f.body))
          (fields_part order f) f.body 8 (header_length f) (simp append_assoc)
          (omega (arith, w.fixed_length, eight))
          (omega (arith, eight, length-fields_part order f w)) in
      let fixed_slice : slice (bytes_of order f) 0 4 ≡ ok f.fixed =
        slice_split (bytes_of order f) [] f.fixed _ 0 4 refl refl (omega (arith, w.fixed_length)) in
      rw (get_body_start-bytes_of order f w)
        (rw fixed_slice (rw fields_slice (ap ok (simp append_assoc))))
    where
      eight : length (f.fixed ++ u32_bytes order (length f.body)) ≡ 8
      eight = omega (
        arith,
        w.fixed_length,
        length-append f.fixed (u32_bytes order (length f.body)),
        length-u32_bytes order (length f.body),
      )

length-string_body :
    (order : Order) (text rest : Bytes)
    → length (string_body order text rest) ≡ 4 + length text + length rest
unfolding string_body
length-string_body order text rest = omega (
  arith,
  length-append (u32_bytes order (length text)) (text ++ rest),
  length-append text rest,
  length-u32_bytes order (length text),
)

-- The message's body is a string of UTF-8.
pub record HasString (msg : Message) (f : Frame) (text rest : Bytes) : Type 0 where
  pub framed : IsFramed msg f
  pub body_is : f.body ≡ string_body msg.header.endian text rest
  pub fits : length text < 2 ^ 32
  pub utf8_text : is_utf8 text ≡ true

module _ (msg : Message) (f : Frame) (text rest : Bytes) (s : HasString msg f text rest) where
  start_is : body_start msg ≡ ok (header_length f)
  unfolding body_start
  start_is = rw s.framed.raw_bytes (get_body_start-bytes_of msg.header.endian f s.framed.frame)

  body_slice : slice_from msg.raw (header_length f) ≡ ok (string_body msg.header.endian text rest)
  body_slice =
      rw s.framed.raw_bytes
        (rw (slice_from-bytes_of_body msg.header.endian f s.framed.frame) (ap ok s.body_is))

  raw_length : length msg.raw ≡ header_length f + 4 + length text + length rest
  raw_length =
      ap length s.framed.raw_bytes
      ∙ omega (
        arith,
        length-bytes_of msg.header.endian f s.framed.frame,
        ap length s.body_is,
        length-string_body msg.header.endian text rest,
      )

  text_slice : slice msg.raw (header_length f + 4) (header_length f + 4 + length text) ≡ ok text
  text_slice =
      let order = msg.header.endian in
      let u32 = u32_bytes order (length text) in
      slice_split msg.raw (before_body order f ++ u32) text rest (header_length f + 4)
        (header_length f + 4 + length text)
        (s.framed.raw_bytes
          ∙ bytes_of-before_body order f
          ∙ ap (λ (b : Bytes). before_body order f ++ b) s.body_is
          ∙ unfold string_body in sym (append_assoc (before_body order f) u32 (text ++ rest)))
        before_text (omega (arith, before_text))
    where
      before_text :
          header_length f + 4
          ≡ length (before_body msg.header.endian f ++ u32_bytes msg.header.endian (length text))
      before_text = omega (
        arith,
        length-before_body msg.header.endian f s.framed.frame,
        length-append (before_body msg.header.endian f) (u32_bytes msg.header.endian (length text)),
        length-u32_bytes msg.header.endian (length text),
      )

  read_length :
      read_u32 msg.header.endian (string_body msg.header.endian text rest) ≡ ok (length text)
  unfolding string_body
  read_length = read_u32-u32_bytes msg.header.endian (length text) (text ++ rest) s.fits

  pub first_string-HasString : first_string msg ≡ ok (some text)
  unfolding first_string
  first_string-HasString = rw start_is (
      rw body_slice (
        rw read_length
          (ground (arith, raw_length, text_slice, from_utf8_lossy-is_utf8 text s.utf8_text))))

  -- `extract_name_from_body` reads the same string.
  pub extract_name_from_body-HasString : extract_name_from_body msg ≡ ok (some text)
  unfolding extract_name_from_body from_utf8
  extract_name_from_body-HasString =
      rw start_is
        (rw body_slice (rw read_length (ground (arith, raw_length, text_slice, s.utf8_text))))

  pub rebuilt_with :
      (new_body : Bytes)
      → rebuild_message_with_body msg.raw msg.header.endian new_body
        ≡ ok (bytes_of msg.header.endian (with_body f new_body))
  rebuilt_with new_body =
      rw s.framed.raw_bytes
        (rebuild_message_with_body-bytes_of msg.header.endian f s.framed.frame new_body)

  -- A reply whose raw bytes are laid out as the specification has it and whose body starts with a
  -- unique name in UTF-8: it is rewritten to the same message with a body that is the fake name.
  pub rewrite_single_name_response-HasString :
      (source : Bus)
      → is_unique_name text ≡ true
      → rewrite_single_name_response msg source
        ≡ ok (
            bytes_of msg.header.endian
              (with_body f (string_body msg.header.endian (to_fake_name text source) (0 ∷ []))))
  unfolding rewrite_single_name_response rebuild_message_with_string string_body
  rewrite_single_name_response-HasString source h =
      rw first_string-HasString (rw h (rebuilt_with _))

  -- A request whose raw bytes are laid out as the specification has it and whose body starts with
  -- a string of UTF-8 that is read as a fake name: it is rewritten to the same message with a
  -- body that is the real name, and the bus of the fake name is given with it.
  pub rewrite_unique_name_request-HasString :
      (real : Bytes) (bus : Bus)
      → from_fake_name text ≡ some (real, bus)
      → rewrite_unique_name_request msg
        ≡ ok (
          bytes_of msg.header.endian (with_body f (string_body msg.header.endian real (0 ∷ []))),
          bus,
        )
  unfolding rewrite_unique_name_request rebuild_message_with_string string_body
  rewrite_unique_name_request-HasString real bus h =
      rw first_string-HasString (rw h (rw (rebuilt_with _)))
