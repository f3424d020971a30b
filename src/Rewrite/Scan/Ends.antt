-- ===== src/Rewrite/Scan/Ends.antt =====
-- The walk over the header fields comes to an end.
use dbus_router.Message.Endian.{Order}
use dbus_router.Prelude.{
  ℕ, zero, suc, ◌+◌, ◌-◌, ◌<◌, ◌≤◌, ◌≡◌, refl, ap, ◌∙◌, ◌≢◌, ◌⊎◌, inl, inr, Option, none, some,
  arith, Bytes, Result, ok, Bool-cases, began_ok, ◌>>=◌, ltb, align_to, ◌==◌,
}
use dbus_router.Rewrite.Scan.{
  ScanResult, out_of_fuel, value_align, variant_align, FieldHead, sig_byte_before, field_head,
  skip_string, skip_signature, skip_array, skip_inner, skip_variant, skip_by_type, skip_value,
  go_on, visit, scan, find_field,
}

-- An alignment is one of these.
abbrev IsAlignment : ℕ → Type 0
IsAlignment a = (a ≡ 1) ⊎ (a ≡ 2) ⊎ (a ≡ 4) ⊎ (a ≡ 8)

value_align-IsAlignment : (b : ℕ) → IsAlignment (value_align b)
unfolding value_align
value_align-IsAlignment b = ground arith

variant_align-IsAlignment : (b : ℕ) → IsAlignment (variant_align b)
unfolding variant_align
variant_align-IsAlignment b = ground arith

align_to-le : (a pos : ℕ) → IsAlignment a → pos ≤ align_to a pos
align_to-le a pos (inl e) = rw e (omega arith)
align_to-le a pos (inr (inl e)) = rw e (omega arith)
align_to-le a pos (inr (inr (inl e))) = rw e (omega arith)
align_to-le a pos (inr (inr (inr e))) = rw e (omega arith)

value-le : (b pos : ℕ) → pos ≤ align_to (value_align b) pos
value-le b pos = align_to-le (value_align b) pos (value_align-IsAlignment b)

variant-le : (b pos : ℕ) → pos ≤ align_to (variant_align b) pos
variant-le b pos = align_to-le (variant_align b) pos (variant_align-IsAlignment b)

-- A field's value starts behind its first byte.
field_head-lt :
    (raw : Bytes) (fields_end pos : ℕ) (h : FieldHead)
    → field_head raw fields_end pos ≡ ok (some h)
    → pos < h.value
unfolding field_head
field_head-lt raw fields_end pos h e = grind (arith, value-le)

skip_string-le :
    (raw : Bytes) (endian : Order) (fields_end pos next : ℕ)
    → skip_string raw endian fields_end pos ≡ ok (some next)
    → pos ≤ next
unfolding skip_string
skip_string-le raw endian fields_end pos next e = ground arith

skip_signature-le :
    (raw : Bytes) (fields_end pos next : ℕ)
    → skip_signature raw fields_end pos ≡ ok (some next)
    → pos ≤ next
unfolding skip_signature
skip_signature-le raw fields_end pos next e = ground arith

skip_array-le :
    (raw : Bytes) (endian : Order) (fields_end pos next : ℕ)
    → skip_array raw endian fields_end pos ≡ ok (some next)
    → pos ≤ next
unfolding skip_array
skip_array-le raw endian fields_end pos next e = ground arith

skip_inner-le :
    (raw : Bytes) (endian : Order) (fields_end b pos next : ℕ)
    → skip_inner raw endian fields_end b pos ≡ ok (some next)
    → pos ≤ next
skip_inner-le raw endian fields_end b pos next e =
    unfold skip_inner in
    ground (
      arith,
      skip_string-le raw endian fields_end pos next,
      skip_signature-le raw fields_end pos next,
    )

skip_inner-align :
    (raw : Bytes) (endian : Order) (fields_end b pos next : ℕ)
    → skip_inner raw endian fields_end b (align_to (variant_align b) pos) ≡ ok (some next)
    → pos ≤ next
skip_inner-align raw endian fields_end b pos next e = omega (
  arith,
  variant-le b pos,
  skip_inner-le raw endian fields_end b (align_to (variant_align b) pos) next e,
)

skip_variant-le :
    (raw : Bytes) (endian : Order) (fields_end pos next : ℕ)
    → skip_variant raw endian fields_end pos ≡ ok (some next)
    → pos ≤ next
unfolding skip_variant
skip_variant-le raw endian fields_end pos next e = grind (arith, skip_inner-align)

skip_by_type-le :
    (raw : Bytes) (endian : Order) (fields_end pos b next : ℕ)
    → skip_by_type raw endian fields_end pos b ≡ ok (some next)
    → pos ≤ next
unfolding skip_by_type
skip_by_type-le raw endian fields_end pos b next e = ground (
  arith,
  skip_string-le raw endian fields_end pos next,
  skip_signature-le raw fields_end pos next,
  skip_array-le raw endian fields_end pos next,
  skip_variant-le raw endian fields_end pos next,
)

skip_value-le :
    (raw : Bytes) (endian : Order) (fields_end sig_len pos next : ℕ)
    → skip_value raw endian fields_end sig_len pos ≡ ok (some next)
    → pos ≤ next
unfolding skip_value
skip_value-le raw endian fields_end sig_len pos next e =
    let (b, _, later) =
      began_ok (sig_byte_before raw sig_len pos) (skip_by_type raw endian fields_end pos) e in
    skip_by_type-le raw endian fields_end pos b next later

-- One round, where the rounds after it do not run out of fuel.
module _ (raw : Bytes) (endian : Order) (field_code fields_end pos : ℕ)
    (again : ℕ → Result ScanResult) (later : (p : ℕ) → pos < p → again p ≢ ok out_of_fuel) where
  go_on_ends :
      (next : Option ℕ) → ((p : ℕ) → next ≡ some p → pos < p) → go_on again next ≢ ok out_of_fuel
  unfolding go_on
  go_on_ends none lt e = cc
  go_on_ends (some p) lt e = later p (lt p refl) e

  visit_ends :
      (head : Option FieldHead)
      → field_head raw fields_end pos ≡ ok head
      → visit raw endian field_code fields_end again head ≢ ok out_of_fuel
  unfolding visit
  visit_ends none h e = cc
  visit_ends (some head) h e = elim (Bool-cases (head.code == field_code)) [
    | inl found_it ↦ cc (rw found_it at e)
    | inr other ↦
        let (next, skipped, rest) =
          began_ok (skip_value raw endian fields_end head.sig_len head.value) (go_on again)
            (rw other at e) in
        go_on_ends next
          (λ p n. omega (
            arith,
            field_head-lt raw fields_end pos head h,
            skip_value-le raw endian fields_end head.sig_len head.value p (skipped ∙ ap ok n),
          ))
          rest
  ]

  round_ends :
      (field_head raw fields_end pos >>= visit raw endian field_code fields_end again)
      ≢ ok out_of_fuel
  round_ends e =
      let (head, h, rest) =
        began_ok (field_head raw fields_end pos) (visit raw endian field_code fields_end again) e in
      visit_ends head h rest

-- The loop does not run out of fuel where it has more than the bytes ahead of it.
scan-ne-out_of_fuel :
    (fuel : ℕ) (raw : Bytes) (endian : Order) (field_code fields_end pos : ℕ)
    → fields_end - pos < fuel
    → scan fuel raw endian field_code fields_end pos ≢ ok out_of_fuel
unfolding scan
scan-ne-out_of_fuel zero raw endian field_code fields_end pos h e = absurd (omega arith)
scan-ne-out_of_fuel (suc fuel) raw endian field_code fields_end pos h e =
    elim (Bool-cases (ltb pos fields_end)) [
      | inl inside ↦
          round_ends raw endian field_code fields_end pos
            (scan fuel raw endian field_code fields_end)
            (λ p lt. scan-ne-out_of_fuel fuel raw endian field_code fields_end p (ground arith))
            (rw inside at e)
      | inr outside ↦ cc (rw outside at e)
    ]

-- On any bytes and any length of the header fields the walk over them does not run out of fuel:
-- it finds the field, ends without it, or panics.
pub find_field-ne-out_of_fuel :
    (raw : Bytes) (endian : Order) (field_code array_len : ℕ)
    → find_field raw endian field_code array_len ≢ ok out_of_fuel
find_field-ne-out_of_fuel raw endian field_code array_len =
    unfold find_field in
    scan-ne-out_of_fuel (array_len + 1) raw endian field_code (16 + array_len) 16 (omega arith)
