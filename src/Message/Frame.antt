-- ===== src/Message/Frame.antt =====
-- A message on the wire described by its pieces, as the D-Bus specification lays them out, and what
-- the offsets of the code read from it.
use mathlib.Core.List.{append_assoc}
use dbus_router.Prelude.{
  ℕ, ◌+◌, ◌^◌, ◌<◌, ◌≡◌, refl, sym, ◌∙◌, ap, ◌++◌, arith, Bytes, length, length-append, ok,
  slice_from, slice_from_split, padding_to_8,
}
use dbus_router.Message.Endian.{Order, u32_bytes, read_u32-u32_bytes}
use dbus_router.Message.{Message, get_body_start}

pub record Frame : Type 0 where
  -- byte order mark, type, flags and version
  pub fixed : Bytes
  pub serial : Bytes
  -- the array of header fields, and the padding behind it
  pub fields : Bytes
  pub pad : Bytes
  pub body : Bytes

pub record IsFrame (f : Frame) : Type 0 where
  pub fixed_length : length f.fixed ≡ 4
  pub serial_length : length f.serial ≡ 4
  pub fields_fit : length f.fields < 2 ^ 32
  pub pad_length : length f.pad ≡ padding_to_8 (16 + length f.fields)

unfoldable pub bytes_of : Order → Frame → Bytes
bytes_of order f =
    f.fixed
    ++ (u32_bytes order (length f.body)
        ++ (f.serial ++ (u32_bytes order (length f.fields) ++ (f.fields ++ (f.pad ++ f.body)))))

pub length-u32_bytes : (order : Order) (n : ℕ) → length (u32_bytes order n) ≡ 4
unfolding u32_bytes
length-u32_bytes Order.little n = refl
length-u32_bytes Order.big n = refl

abbrev pub head : Order → Frame → Bytes
head order f = f.fixed ++ (u32_bytes order (length f.body) ++ f.serial)

pub length-head : (order : Order) (f : Frame) → IsFrame f → length (head order f) ≡ 12
length-head order f w = omega (
  arith,
  length-append f.fixed (u32_bytes order (length f.body) ++ f.serial),
  length-append (u32_bytes order (length f.body)) f.serial,
  length-u32_bytes order (length f.body),
)

-- Behind the twelve fixed bytes stands the length of the header fields.
pub slice_from-bytes_of :
    (order : Order) (f : Frame)
    → IsFrame f
    → slice_from (bytes_of order f) 12
      ≡ ok (u32_bytes order (length f.fields) ++ (f.fields ++ (f.pad ++ f.body)))
unfolding bytes_of
slice_from-bytes_of order f w =
    slice_from_split (bytes_of order f) (head order f) _ 12 (simp append_assoc)
      (omega (arith, length-head order f w))

-- The body starts where the header fields and their padding end.
pub get_body_start-bytes_of :
    (order : Order) (f : Frame)
    → IsFrame f
    → get_body_start (bytes_of order f) order ≡ ok (16 + length f.fields + length f.pad)
unfolding get_body_start
get_body_start-bytes_of order f w = rw (slice_from-bytes_of order f w) (
    rw (read_u32-u32_bytes order (length f.fields) (f.fields ++ (f.pad ++ f.body)) w.fields_fit)
      (rw w.pad_length))

-- A message whose raw bytes are those of a well-formed frame in its byte order.
pub record IsFramed (msg : Message) (f : Frame) : Type 0 where
  pub frame : IsFrame f
  pub raw_bytes : msg.raw ≡ bytes_of msg.header.endian f

abbrev pub header_length : Frame → ℕ
header_length f = 16 + length f.fields + length f.pad

abbrev pub before_body : Order → Frame → Bytes
before_body order f = head order f ++ (u32_bytes order (length f.fields) ++ (f.fields ++ f.pad))

pub length-before_body :
    (order : Order) (f : Frame) → IsFrame f → length (before_body order f) ≡ header_length f
length-before_body order f w = omega (
  arith,
  length-head order f w,
  length-append (head order f) (u32_bytes order (length f.fields) ++ (f.fields ++ f.pad)),
  length-append (u32_bytes order (length f.fields)) (f.fields ++ f.pad),
  length-append f.fields f.pad,
  length-u32_bytes order (length f.fields),
)

pub bytes_of-before_body :
    (order : Order) (f : Frame) → bytes_of order f ≡ before_body order f ++ f.body
unfolding bytes_of
bytes_of-before_body order f = simp append_assoc

pub length-bytes_of :
    (order : Order) (f : Frame)
    → IsFrame f
    → length (bytes_of order f) ≡ header_length f + length f.body
length-bytes_of order f w =
    ap length (bytes_of-before_body order f)
    ∙ omega (arith, length-append (before_body order f) f.body, length-before_body order f w)

-- From there on stands the body.
pub slice_from-bytes_of_body :
    (order : Order) (f : Frame)
    → IsFrame f
    → slice_from (bytes_of order f) (header_length f) ≡ ok f.body
slice_from-bytes_of_body order f w =
    slice_from_split (bytes_of order f) (before_body order f) f.body (header_length f)
      (bytes_of-before_body order f) (sym (length-before_body order f w))
