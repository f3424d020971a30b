-- ===== src/Rewrite/Placed.antt =====
-- One string among the header fields of a message: where it stands, and what stands around it.
use mathlib.Core.List.{append_assoc}
use dbus_router.Message.Endian.{Order, u32_bytes}
use dbus_router.Message.Frame.{Frame, bytes_of, head, length-u32_bytes}
use dbus_router.Prelude.{
  ℕ, ◌+◌, ◌≡◌, refl, ◌∙◌, ap, List, [], ◌∷◌, ◌++◌, arith, Bytes, length, length-append,
  length-replicate, replicate, padding_to_8,
}
use dbus_router.Rewrite.Encode.{
  HeaderField, string, type_byte, value_bytes, field_bytes, encode_at, start_of, end_of,
  length-encode_at-cons, length-value_string, encode_at_shift,
}
use dbus_router.Rewrite.Pieces.{pieces}
use dbus_router.Rewrite.Scan.Finds.{end_of_all}

-- A header field that is a string, such as DESTINATION and SENDER.
abbrev pub string_field : ℕ → Bytes → HeaderField
string_field code text = record { code = code; value = string text }

-- The same message with other header fields, padded anew.
abbrev pub with_fields : Frame → Bytes → Frame
with_fields f fields = record f {
  fields = fields;
  pad = replicate (padding_to_8 (16 + length fields)) 0;
}

encode_at-append :
    (order : Order) (pos : ℕ) (fs gs : List HeaderField)
    → encode_at order pos (fs ++ gs)
      ≡ encode_at order pos fs ++ encode_at order (end_of_all order pos fs) gs
unfolding encode_at
encode_at-append order pos [] gs = refl
encode_at-append order pos (f ∷ fs) gs =
    rw (encode_at-append order (end_of order pos f) fs gs) (simp append_assoc)

length-encode_at :
    (order : Order) (pos : ℕ) (fs : List HeaderField)
    → pos + length (encode_at order pos fs) ≡ end_of_all order pos fs
length-encode_at order pos [] = unfold encode_at in omega arith
length-encode_at order pos (f ∷ fs) =
    omega
      (arith, length-encode_at-cons order pos f fs, length-encode_at order (end_of order pos f) fs)

module _ (order : Order) (code : ℕ) (before : List HeaderField) where
  -- where the fields before the string end
  unfoldable pub here : ℕ
  here = end_of_all order 16 before

  -- all that stands between the sixteen bytes and the string's length
  unfoldable pub lead : Bytes
  lead = encode_at order 16 before ++ (replicate (padding_to_8 here) 0 ++ code ∷ 1 ∷ b's' ∷ 0 ∷ [])

  pub length-lead : 16 + length lead ≡ start_of here + 4
  unfolding lead here
  length-lead = omega (
    arith,
    length-append (encode_at order 16 before)
        (replicate (padding_to_8 here) 0 ++ code ∷ 1 ∷ b's' ∷ 0 ∷ []),
    length-append (replicate (padding_to_8 here) 0) (code ∷ 1 ∷ b's' ∷ 0 ∷ []),
    length-replicate {A = ℕ} (padding_to_8 here) 0,
    length-encode_at order 16 before,
  )

  -- where the fields behind the string start
  unfoldable pub behind : Bytes → ℕ
  behind text = 16 + length lead + (length text + 5)

  end_of-here : (text : Bytes) → end_of order here (string_field code text) ≡ behind text
  unfolding behind
  end_of-here text = omega (arith, length-lead, length-value_string order text)

  pub fields_with :
      (text : Bytes) (after : List HeaderField)
      → encode_at order 16 (before ++ string_field code text ∷ after)
        ≡ lead
          ++ (u32_bytes order (length text) ++ (text ++ 0 ∷ encode_at order (behind text) after))
  fields_with text after =
      encode_at-append order 16 before (string_field code text ∷ after)
      ∙ rw (← end_of-here text)
          (unfold lead here encode_at value_bytes type_byte in simp append_assoc)

  pub length-fields_with :
      (text : Bytes) (after : List HeaderField)
      → length (encode_at order 16 (before ++ string_field code text ∷ after))
        ≡ length lead + (length text + 5) + length (encode_at order (behind text) after)
  length-fields_with text after =
      ap length (fields_with text after)
      ∙ omega (
        arith,
        length-append lead
            (u32_bytes order (length text) ++ (text ++ 0 ∷ encode_at order (behind text) after)),
        length-append (u32_bytes order (length text))
            (text ++ 0 ∷ encode_at order (behind text) after),
        length-append text (0 ∷ encode_at order (behind text) after),
        length-u32_bytes order (length text),
      )

  -- The raw bytes around the string.
  pub bytes_of-pieces :
      (f : Frame) (text : Bytes) (after : List HeaderField)
      → f.fields ≡ encode_at order 16 (before ++ string_field code text ∷ after)
      → bytes_of order f
        ≡ pieces order
            (head order f)
            (length f.fields)
            lead
            text
            (encode_at order (behind text) after)
            (f.pad ++ f.body)
  unfolding bytes_of
  bytes_of-pieces f text after h =
      ap
        (λ (t : Bytes).
          f.fixed
          ++ (u32_bytes order (length f.body)
              ++ (f.serial ++ (u32_bytes order (length f.fields) ++ (t ++ (f.pad ++ f.body))))))
        (h ∙ fields_with text after)
      ∙ simp append_assoc

  -- The fields behind the string, moved with its end.
  moved :
      (old new : Bytes) (g : HeaderField) (gs : List HeaderField)
      → replicate (padding_to_8 (behind new)) 0
          ++ (field_bytes order g ++ encode_at order (end_of order (behind old) g) gs)
        ≡ encode_at order (behind new) (g ∷ gs)
  unfolding encode_at
  moved old new g gs =
      ap (λ (t : Bytes). replicate (padding_to_8 (behind new)) 0 ++ (field_bytes order g ++ t))
        (encode_at_shift order gs (end_of order (behind old) g) (end_of order (behind new) g)
          (omega arith))

  pub moved_open :
      (old new : Bytes) (g : HeaderField) (gs : List HeaderField)
      → replicate (padding_to_8 (16 + length lead + (length new + 5))) 0
          ++ (field_bytes order g ++ encode_at order (end_of order (behind old) g) gs)
        ≡ encode_at order (behind new) (g ∷ gs)
  moved_open old new g gs = unfold behind in moved old new g gs

  pub length-moved :
      (old new : Bytes) (g : HeaderField) (gs : List HeaderField)
      → padding_to_8 (behind new)
          + length (field_bytes order g ++ encode_at order (end_of order (behind old) g) gs)
        ≡ length (encode_at order (behind new) (g ∷ gs))
  length-moved old new g gs = omega (
    arith,
    ap length (moved old new g gs),
    length-append (replicate (padding_to_8 (behind new)) 0)
        (field_bytes order g ++ encode_at order (end_of order (behind old) g) gs),
    length-replicate {A = ℕ} (padding_to_8 (behind new)) 0,
  )
