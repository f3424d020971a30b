-- ===== src/Rewrite/Scan/Finds.antt =====
-- The loop finds the first field with the code, if the fields are encoded as the specification has it.
use mathlib.Core.List.{append_assoc}
use dbus_router.Message.Endian.{Order}
use dbus_router.Prelude.{
  ℕ, zero, suc, ◌+◌, ◌^◌, ◌<◌, ◌≤◌, ◌≡◌, ◌≢◌, refl, sym, ◌∙◌, some, List, [], ◌∷◌, ◌++◌, arith,
  Bytes, All, length, length-append, length-replicate, replicate, ok, padding_to_8,
}
use dbus_router.Rewrite.Encode.{
  HeaderField, field_bytes, encode_at, start_of, end_of, length-encode_at-cons,
}
use dbus_router.Rewrite.Scan.Step.{field_head-field_bytes, skip_value-field_bytes}
use dbus_router.Rewrite.Scan.{found, field_head, skip_value, go_on, visit, scan, find_field}

-- The offset behind the fields.
abbrev pub end_of_all : Order → ℕ → List HeaderField → ℕ
end_of_all order pos [] = pos
end_of_all order pos (f ∷ fs) = end_of_all order (end_of order pos f) fs

encode_at-layout :
    (order : Order) (raw pre rest : Bytes) (pos : ℕ) (f : HeaderField) (fs : List HeaderField)
    → raw ≡ pre ++ (encode_at order pos (f ∷ fs) ++ rest)
    → raw
      ≡ (pre ++ replicate (padding_to_8 pos) 0)
        ++ (field_bytes order f ++ (encode_at order (end_of order pos f) fs ++ rest))
unfolding encode_at
encode_at-layout order raw pre rest pos f fs h = h ∙ simp append_assoc

padded-length :
    (pre : Bytes) (pos : ℕ)
    → length pre ≡ pos
    → length (pre ++ replicate (padding_to_8 pos) 0) ≡ start_of pos
padded-length pre pos p = omega (
  arith,
  length-append pre (replicate (padding_to_8 pos) 0),
  length-replicate {A = ℕ} (padding_to_8 pos) 0,
)

-- The fields `f ∷ fs` stand at `pos`, up to `fields_end`.
module _ (order : Order) (raw pre rest : Bytes) (fields_end pos : ℕ) (f : HeaderField)
    (fs : List HeaderField) (l : raw ≡ pre ++ (encode_at order pos (f ∷ fs) ++ rest))
    (p : length pre ≡ pos) (e : fields_end ≡ pos + length (encode_at order pos (f ∷ fs))) where
  fits_in : end_of order pos f ≤ fields_end
  fits_in = omega (arith, length-encode_at-cons order pos f fs)

  round_head :
      field_head raw fields_end pos
      ≡ ok (some (record { code = f.code; sig_len = 1; value = start_of pos + 4 }))
  round_head =
      field_head-field_bytes raw (pre ++ replicate (padding_to_8 pos) 0)
        (encode_at order (end_of order pos f) fs ++ rest) order f fields_end (start_of pos)
        (encode_at-layout order raw pre rest pos f fs l) (padded-length pre pos p) (omega arith) pos
        (omega arith) fits_in

  round_skip :
      length (encode_at order pos (f ∷ fs)) < 2 ^ 32
      → skip_value raw order fields_end 1 (start_of pos + 4) ≡ ok (some (end_of order pos f))
  round_skip small =
      skip_value-field_bytes raw (pre ++ replicate (padding_to_8 pos) 0)
        (encode_at order (end_of order pos f) fs ++ rest) order f fields_end (start_of pos)
        (encode_at-layout order raw pre rest pos f fs l) (padded-length pre pos p) (omega arith)
        fits_in (omega (arith, length-encode_at-cons order pos f fs))

  -- what stands in front of the fields `fs`
  next_pre : Bytes
  next_pre = (pre ++ replicate (padding_to_8 pos) 0) ++ field_bytes order f

  next_layout : raw ≡ next_pre ++ (encode_at order (end_of order pos f) fs ++ rest)
  unfolding next_pre
  next_layout =
      encode_at-layout order raw pre rest pos f fs l
      ∙ sym (append_assoc (pre ++ replicate (padding_to_8 pos) 0) (field_bytes order f) _)

  next_place : length next_pre ≡ end_of order pos f
  unfolding next_pre
  next_place = omega (
    arith,
    padded-length pre pos p,
    length-append (pre ++ replicate (padding_to_8 pos) 0) (field_bytes order f),
  )

module _ (raw rest : Bytes) (order : Order) (field_code fields_end : ℕ) where
  scan-encode_at :
      (before : List HeaderField) (f : HeaderField) (after : List HeaderField) (fuel : ℕ)
      (pre : Bytes) (pos : ℕ)
      → raw ≡ pre ++ (encode_at order pos (before ++ f ∷ after) ++ rest)
      → length pre ≡ pos
      → fields_end ≡ pos + length (encode_at order pos (before ++ f ∷ after))
      → length (encode_at order pos (before ++ f ∷ after)) < 2 ^ 32
      → length (encode_at order pos (before ++ f ∷ after)) < fuel
      → All (λ g. g.code ≢ field_code) before
      → f.code ≡ field_code
      → scan fuel raw order field_code fields_end pos
        ≡ ok (found (start_of (end_of_all order pos before) + 4))
  unfolding scan visit go_on
  scan-encode_at before f after zero pre pos l p e s n none_before c = absurd (omega arith)
  scan-encode_at [] f after (suc fuel) pre pos l p e s n none_before c =
      rw (round_head order raw pre rest fields_end pos f after l p e)
        (ground (arith, length-encode_at-cons order pos f after))
  scan-encode_at (g ∷ before) f after (suc fuel) pre pos l p e s n none_before c =
      let fs = before ++ f ∷ after in
      let len = length-encode_at-cons order pos g fs in
      let later =
        scan-encode_at before f after fuel (next_pre order raw pre rest fields_end pos g fs l p e)
          (end_of order pos g) (next_layout order raw pre rest fields_end pos g fs l p e)
          (next_place order raw pre rest fields_end pos g fs l p e) (omega (arith, len))
          (omega (arith, len)) (omega (arith, len)) none_before.1 c in
      rw (round_head order raw pre rest fields_end pos g fs l p e) (
        rw (round_skip order raw pre rest fields_end pos g fs l p e s)
          (ground (arith, none_before.0, len, later)))

-- In raw bytes whose header fields stand behind sixteen bytes, the walk finds the value of the first
-- field with the code.
pub find_field-encode_at :
    (order : Order) (raw pre rest : Bytes) (field_code : ℕ) (before : List HeaderField)
    (f : HeaderField) (after : List HeaderField)
    → raw ≡ pre ++ (encode_at order 16 (before ++ f ∷ after) ++ rest)
    → length pre ≡ 16
    → length (encode_at order 16 (before ++ f ∷ after)) < 2 ^ 32
    → All (λ g. g.code ≢ field_code) before
    → f.code ≡ field_code
    → find_field raw order field_code (length (encode_at order 16 (before ++ f ∷ after)))
      ≡ ok (found (start_of (end_of_all order 16 before) + 4))
find_field-encode_at order raw pre rest field_code before f after l p s none_before c =
    let n = length (encode_at order 16 (before ++ f ∷ after)) in
    unfold find_field in
    scan-encode_at raw rest order field_code (16 + n) before f after (n + 1) pre 16 l p refl s
      (omega arith) none_before c
