-- ===== src/Rewrite/Encode.antt =====
-- The header fields of a message on the wire, as the D-Bus specification lays them out: an array of
-- structures of a code and a variant, each at a multiple of 8 from the start of the message. Of the
-- types, the four that the header fields of the specification have.
use dbus_router.Message.Endian.{Order, u32_bytes}
use dbus_router.Message.Frame.{length-u32_bytes}
use dbus_router.Prelude.{
  ℕ, ◌+◌, ◌%◌, ◌≡◌, refl, ap₂, List, [], ◌∷◌, ◌++◌, arith, Bytes, length, length-append,
  length-replicate, replicate, padding_to_8,
}

pub data FieldValue : Type 0 where
  string object_path signature : Bytes → FieldValue
  uint32 : ℕ → FieldValue

pub record HeaderField : Type 0 where
  pub code : ℕ
  pub value : FieldValue

unfoldable pub type_byte : FieldValue → ℕ
type_byte (string _) = b's'
type_byte (object_path _) = b'o'
type_byte (signature _) = b'g'
type_byte (uint32 _) = b'u'

unfoldable pub value_bytes : Order → FieldValue → Bytes
value_bytes order (string text) = u32_bytes order (length text) ++ (text ++ 0 ∷ [])
value_bytes order (object_path text) = u32_bytes order (length text) ++ (text ++ 0 ∷ [])
value_bytes order (signature text) = length text ∷ (text ++ 0 ∷ [])
value_bytes order (uint32 n) = u32_bytes order n

abbrev pub field_bytes : Order → HeaderField → Bytes
field_bytes order f = f.code ∷ 1 ∷ type_byte f.value ∷ 0 ∷ value_bytes order f.value

-- The fields from offset `pos` on, with the padding before each.
unfoldable pub encode_at : Order → ℕ → List HeaderField → Bytes
encode_at order pos [] = []
encode_at order pos (f ∷ fs) =
    replicate (padding_to_8 pos) 0
    ++ (field_bytes order f
        ++ encode_at order (pos + padding_to_8 pos + length (field_bytes order f)) fs)

-- Where the field behind `pos` starts, and where it ends.
abbrev pub start_of : ℕ → ℕ
start_of pos = pos + padding_to_8 pos

abbrev pub end_of : Order → ℕ → HeaderField → ℕ
end_of order pos f = pos + padding_to_8 pos + length (field_bytes order f)

pub length-value_string :
    (order : Order) (text : Bytes) → length (value_bytes order (string text)) ≡ length text + 5
unfolding value_bytes
length-value_string order text = omega (
  arith,
  length-append (u32_bytes order (length text)) (text ++ 0 ∷ []),
  length-append text (0 ∷ []),
  length-u32_bytes order (length text),
)

pub length-encode_at-cons :
    (order : Order) (pos : ℕ) (f : HeaderField) (fs : List HeaderField)
    → pos + length (encode_at order pos (f ∷ fs))
      ≡ end_of order pos f + length (encode_at order (end_of order pos f) fs)
unfolding encode_at
length-encode_at-cons order pos f fs = omega (
  arith,
  length-append (replicate (padding_to_8 pos) 0)
      (field_bytes order f ++ encode_at order (end_of order pos f) fs),
  length-append (field_bytes order f) (encode_at order (end_of order pos f) fs),
  length-replicate {A = ℕ} (padding_to_8 pos) 0,
)

-- Only the offset's place between two multiples of 8 counts.
pub encode_at_shift :
    (order : Order) (fs : List HeaderField) (p q : ℕ)
    → p % 8 ≡ q % 8
    → encode_at order p fs ≡ encode_at order q fs
unfolding encode_at
encode_at_shift order [] p q h = refl
encode_at_shift order (f ∷ fs) p q h =
    let len = length (field_bytes order f) in
    ap₂ (λ (n : ℕ) (rest : Bytes). replicate n 0 ++ (field_bytes order f ++ rest)) (omega arith)
      (encode_at_shift order fs (start_of p + len) (start_of q + len) (omega arith))
