-- ===== src/Rewrite/Scan/Step.antt =====
-- One round of the loop at a field that is encoded as the specification has it.
use mathlib.Core.List.{append_assoc}
use dbus_router.Message.Endian.{Order, read_u32, u32_bytes, read_u32-u32_bytes}
use dbus_router.Prelude.{
  ℕ, ◌+◌, ◌-◌, ◌%◌, ◌^◌, ◌<◌, ◌≤◌, ◌≡◌, refl, sym, ◌∙◌, ap, some, [], ◌∷◌, ◌++◌, arith, Bytes,
  length, length-append, ok, index, index_split, slice_from_split, align_to,
}
use dbus_router.Message.Frame.{length-u32_bytes}
use dbus_router.Rewrite.Encode.{
  FieldValue, string, object_path, signature, uint32, HeaderField, type_byte, value_bytes,
  field_bytes, length-value_string,
}
use dbus_router.Rewrite.Scan.{
  value_align, field_head, sig_byte_before, skip_string, skip_signature, skip_by_type, skip_value,
}

-- A field with signature `sg` of one byte stands at `start`.
module _ (raw pre rest : Bytes) (code sg start : ℕ) (layout : raw ≡ pre ++ code ∷ 1 ∷ sg ∷ 0 ∷ rest)
    (place : length pre ≡ start) where
  code_byte : index raw start ≡ ok code
  code_byte = index_split raw pre (1 ∷ sg ∷ 0 ∷ rest) code start layout (sym place)

  length_byte : index raw (start + 1) ≡ ok 1
  length_byte =
      index_split raw (pre ++ code ∷ []) (sg ∷ 0 ∷ rest) 1 (start + 1)
        (layout ∙ sym (append_assoc pre (code ∷ []) (1 ∷ sg ∷ 0 ∷ rest)))
        (omega (arith, length-append pre (code ∷ [])))

  type_of_field : (pos : ℕ) → pos ≡ start + 4 → sig_byte_before raw 1 pos ≡ ok sg
  unfolding sig_byte_before
  type_of_field pos e =
      index_split raw (pre ++ code ∷ 1 ∷ []) (0 ∷ rest) sg (pos - 1 - 1)
        (layout ∙ sym (append_assoc pre (code ∷ 1 ∷ []) (sg ∷ 0 ∷ rest)))
        (omega (arith, length-append pre (code ∷ 1 ∷ [])))

  field_head_lem :
      (fields_end pos : ℕ)
      → align_to 8 pos ≡ start
      → start + 4 ≤ fields_end
      → align_to (value_align sg) (start + 4) ≡ start + 4
      → field_head raw fields_end pos
        ≡ ok (some (record { code = code; sig_len = 1; value = start + 4 }))
  unfolding field_head
  field_head_lem fields_end pos a fit v =
      let sum : start + 1 + (1 + 1 + 1) ≡ start + 4 = omega arith in
      ground (arith, code_byte, length_byte, type_of_field (start + 4) refl, sum)

-- The value of a field stands at `pos`, with four bytes before it and `rest` behind it.
module _ (raw before rest : Bytes) (order : Order) (fields_end pos : ℕ)
    (place : length before ≡ pos) where
  skip_string_lem :
      (text : Bytes)
      → raw ≡ before ++ (value_bytes order (string text) ++ rest)
      → pos + length (value_bytes order (string text)) ≤ fields_end
      → length text < 2 ^ 32
      → skip_string raw order fields_end pos
        ≡ ok (some (pos + length (value_bytes order (string text))))
  skip_string_lem text layout fit small =
      unfold skip_string in
      ground (
        arith,
        slice_from_split raw before (value_bytes order (string text) ++ rest) pos layout
            (sym place),
        read_text,
        length-value_string order text,
      )
    where
      read_text : read_u32 order (value_bytes order (string text) ++ rest) ≡ ok (length text)
      read_text =
          unfold value_bytes in
          ap (read_u32 order) (append_assoc (u32_bytes order (length text)) (text ++ 0 ∷ []) rest)
          ∙ read_u32-u32_bytes order (length text) ((text ++ 0 ∷ []) ++ rest) small

  skip_signature_lem :
      (text : Bytes)
      → raw ≡ before ++ (value_bytes order (signature text) ++ rest)
      → pos + length (value_bytes order (signature text)) ≤ fields_end
      → skip_signature raw fields_end pos
        ≡ ok (some (pos + length (value_bytes order (signature text))))
  unfolding value_bytes
  skip_signature_lem text layout fit =
      unfold skip_signature in
      ground (
        arith,
        index_split raw before ((text ++ 0 ∷ []) ++ rest) (length text) pos layout (sym place),
        length-append text (0 ∷ []),
      )

  skip_by_type_lem :
      (v : FieldValue)
      → raw ≡ before ++ (value_bytes order v ++ rest)
      → pos + length (value_bytes order v) ≤ fields_end
      → length (value_bytes order v) < 2 ^ 32
      → skip_by_type raw order fields_end pos (type_byte v)
        ≡ ok (some (pos + length (value_bytes order v)))
  unfolding skip_by_type type_byte value_bytes
  skip_by_type_lem (string text) layout fit small =
      skip_string_lem text layout fit (omega (arith, length-value_string order text))
  skip_by_type_lem (object_path text) layout fit small =
      skip_string_lem text layout fit (omega (arith, length-value_string order text))
  skip_by_type_lem (signature text) layout fit small = skip_signature_lem text layout fit
  skip_by_type_lem (uint32 n) layout fit small = ground (arith, length-u32_bytes order n)

-- Of the four types of header fields none needs padding behind its signature.
value_align-type_byte :
    (v : FieldValue) (start : ℕ)
    → start % 8 ≡ 0
    → align_to (value_align (type_byte v)) (start + 4) ≡ start + 4
unfolding value_align type_byte
value_align-type_byte (string _) start h = omega arith
value_align-type_byte (object_path _) start h = omega arith
value_align-type_byte (signature _) start h = omega arith
value_align-type_byte (uint32 _) start h = omega arith

-- A field that is laid out behind `pre`.
module _ (raw pre rest : Bytes) (order : Order) (f : HeaderField) (fields_end start : ℕ)
    (layout : raw ≡ pre ++ (field_bytes order f ++ rest)) (place : length pre ≡ start)
    (aligned : start % 8 ≡ 0) where
  pub field_head-field_bytes :
      (pos : ℕ)
      → align_to 8 pos ≡ start
      → start + length (field_bytes order f) ≤ fields_end
      → field_head raw fields_end pos
        ≡ ok (some (record { code = f.code; sig_len = 1; value = start + 4 }))
  field_head-field_bytes pos a fit =
      field_head_lem raw pre (value_bytes order f.value ++ rest) f.code (type_byte f.value) start
        layout place fields_end pos a (omega arith) (value_align-type_byte f.value start aligned)

  pub skip_value-field_bytes :
      start + length (field_bytes order f) ≤ fields_end
      → length (value_bytes order f.value) < 2 ^ 32
      → skip_value raw order fields_end 1 (start + 4)
        ≡ ok (some (start + length (field_bytes order f)))
  unfolding skip_value
  skip_value-field_bytes fit small =
      let before : Bytes = pre ++ f.code ∷ 1 ∷ type_byte f.value ∷ 0 ∷ [] in
      rw
        (type_of_field raw pre (value_bytes order f.value ++ rest) f.code (type_byte f.value) start
          layout place (start + 4) refl)
        (skip_by_type_lem raw before rest order fields_end (start + 4)
            (omega (arith, length-append pre (f.code ∷ 1 ∷ type_byte f.value ∷ 0 ∷ []))) f.value
            (layout ∙ sym (append_assoc pre _ _)) (omega arith) small
          ∙ ap (λ (n : ℕ). ok (some n)) (omega arith))
