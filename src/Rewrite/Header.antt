-- ===== src/Rewrite/Header.antt =====
-- `rewrite_message_header` on framed messages: the sender that a client sees, and the destination
-- that a bus sees.
use dbus_router.Bus.{Bus}
use dbus_router.FakeName.RoundTrip.{from_fake_name-to_fake_name}
use dbus_router.FakeName.Shown.{to_fake_name_ne}
use dbus_router.FakeName.{is_unique_name, to_fake_name}
use dbus_router.Message.Endian.{Order}
use dbus_router.Message.Frame.{Frame, IsFramed, bytes_of}
use dbus_router.Message.{Message}
use dbus_router.Prelude.{
  ℕ, ◌<◌, ◌^◌, ◌≡◌, ◌≢◌, refl, ap, ◌∙◌, true, some, List, ◌∷◌, ◌++◌, All, Bytes, length, ok,
}
use dbus_router.Rewrite.Encode.{HeaderField, encode_at}
use dbus_router.Rewrite.Placed.{string_field, with_fields}
use dbus_router.Rewrite.Replace.{rewrite_header_field-bytes_of}
use dbus_router.Rewrite.{to_client, to_upstream, rewrite_message_header, rewrite_header_field}

-- The first header field with the code is this string, among fields that are encoded as the
-- specification has it.
pub record HasField (order : Order) (f : Frame) (code : ℕ) (text : Bytes) : Type 0 where
  pub before : List HeaderField
  pub after : List HeaderField
  pub fields_are : f.fields ≡ encode_at order 16 (before ++ string_field code text ∷ after)
  pub none_before : All (λ g. g.code ≢ code) before

-- The same message with another string in the field.
abbrev pub with_text :
    {order : Order} {f : Frame} {code : ℕ} {text : Bytes}
    → HasField order f code text
    → Bytes
    → Frame
with_text {order} {f} {code} h new =
    with_fields f (encode_at order 16 (h.before ++ string_field code new ∷ h.after))

field_rewritten :
    (msg : Message) (f : Frame) (code : ℕ) (old new : Bytes)
    → IsFramed msg f
    → (h : HasField msg.header.endian f code old) → length (with_text h new).fields < 2 ^ 32
    → rewrite_header_field msg.raw msg.header.endian code new
      ≡ ok (bytes_of msg.header.endian (with_text h new))
field_rewritten msg f code old new i h fits =
    ap (λ (r : Bytes). rewrite_header_field r msg.header.endian code new) i.raw_bytes
    ∙ rewrite_header_field-bytes_of msg.header.endian code h.before f i.frame old new h.after
        h.fields_are h.none_before fits

-- A message of a bus has a unique name as its sender, its raw bytes are laid out as the
-- specification has it, and the first header field 7 in them is the sender. If the header fields
-- with the fake name are shorter than 2^32 bytes, the sender is replaced by the fake name in the
-- header and in the raw bytes, and nothing else changes.
pub rewrite_message_header-to_client :
    (msg : Message) (f : Frame) (source : Bus) (real : Bytes)
    → IsFramed msg f
    → (h : HasField msg.header.endian f 7 real) → msg.header.sender ≡ some real
    → is_unique_name real ≡ true
    → length (with_text h (to_fake_name real source)).fields < 2 ^ 32
    → rewrite_message_header msg to_client source
      ≡ ok (record msg {
        raw = bytes_of msg.header.endian (with_text h (to_fake_name real source));
        header = record msg.header { sender = some (to_fake_name real source) };
      })
unfolding rewrite_message_header
rewrite_message_header-to_client msg f source real i h sender unique fits =
    rw
      (
        sender,
        to_fake_name_ne real source unique,
        field_rewritten msg f 7 real (to_fake_name real source) i h fits,
      )
      refl

-- A message of the client has the fake name of a unique name as its destination, its raw bytes
-- are laid out as the specification has it, and the first header field 6 in them is the
-- destination. If the header fields with the real name are shorter than 2^32 bytes, the
-- destination is replaced by the real name in the header and in the raw bytes, and nothing else
-- changes.
pub rewrite_message_header-to_upstream :
    (msg : Message) (f : Frame) (target bus : Bus) (real : Bytes)
    → IsFramed msg f
    → (h : HasField msg.header.endian f 6 (to_fake_name real bus))
    → msg.header.destination ≡ some (to_fake_name real bus)
    → is_unique_name real ≡ true
    → length (with_text h real).fields < 2 ^ 32
    → rewrite_message_header msg to_upstream target
      ≡ ok (record msg {
        raw = bytes_of msg.header.endian (with_text h real);
        header = record msg.header { destination = some real };
      })
unfolding rewrite_message_header
rewrite_message_header-to_upstream msg f target bus real i h dest unique fits =
    rw
      (
        dest,
        from_fake_name-to_fake_name real bus unique,
        field_rewritten msg f 6 (to_fake_name real bus) real i h fits,
      )
      refl
