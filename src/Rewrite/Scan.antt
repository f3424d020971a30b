-- ===== src/Rewrite/Scan.antt =====
-- The loop of `rewrite_header_field` that walks over the header fields to the one with a given code.
pub mod Ends
pub mod Step
pub mod Finds
use dbus_router.Message.Endian.{Order, read_u32}
use dbus_router.Prelude.{
  ℕ, zero, suc, ◌+◌, ◌-◌, ◌<◌, ◌≡◌, ◌≢◌, Bool, not, ◌||◌, Option, none, some, arith, leb, ltb, ◌==◌,
  if◌then◌else◌, Bytes, Result, ok, ◌>>=◌, index, slice_from, align_to,
}

pub data ScanResult : Type 0 where
  -- where the value of the field starts
  found : ℕ → ScanResult
  -- the loop ended or broke off
  not_found : ScanResult
  out_of_fuel : ScanResult

is_one_of_4 : ℕ → Bool
is_one_of_4 b = b == b'u' || b == b'i' || b == b'b' || b == b'h'

is_one_of_8 : ℕ → Bool
is_one_of_8 b = b == b'x' || b == b't' || b == b'd'

is_string : ℕ → Bool
is_string b = b == b's' || b == b'o'

-- the match that gives `value_align`
value_align : ℕ → ℕ
unfolding is_one_of_4 is_one_of_8 is_string
value_align b =
    if is_string b || is_one_of_4 b
    then 4
    else if b == b'n' || b == b'q'
    then 2
    else if is_one_of_8 b
    then 8
    else if b == b'g' || b == b'y'
    then 1
    else if b == b'a'
    then 4
    else if b == b'v'
    then 1
    else if b == b'(' || b == b'{'
    then 8
    else 1

-- the match that gives `v_align`
variant_align : ℕ → ℕ
unfolding is_one_of_4 is_one_of_8 is_string
variant_align b =
    if is_string b || is_one_of_4 b || b == b'a'
    then 4
    else if b == b'n' || b == b'q'
    then 2
    else if is_one_of_8 b
    then 8
    else if b == b'(' || b == b'{'
    then 8
    else 1

-- What is read at the start of a field: its code, the length of its signature, and where its value
-- starts.
pub record FieldHead : Type 0 where
  pub code : ℕ
  pub sig_len : ℕ
  pub value : ℕ

-- `if sig_len > 0 { raw[pos - sig_len - 1] } else { 0 }`
sig_byte_before : Bytes → ℕ → ℕ → Result ℕ
sig_byte_before raw sig_len pos = if ltb 0 sig_len then index raw (pos - sig_len - 1) else ok 0

-- From the top of the loop's body to the value. `none` is a `break`.
pub field_head : Bytes → ℕ → ℕ → Result (Option FieldHead)
field_head raw fields_end pos =
    let start = align_to 8 pos in
    if leb fields_end start then ok none else do
      code ← index raw start
      if leb fields_end (start + 1) then ok none else do
        sig_len ← index raw (start + 1)
        let after_sig = start + 1 + (1 + sig_len + 1)
        sig_byte ← sig_byte_before raw sig_len after_sig
        ok (
            some (record {
              code = code;
              sig_len = sig_len;
              value = align_to (value_align sig_byte) after_sig;
            }))

-- over a string: 4 bytes of length, the string and its null byte
skip_string : Bytes → Order → ℕ → ℕ → Result (Option ℕ)
skip_string raw endian fields_end pos =
    if ltb fields_end (pos + 4)
    then ok none
    else do rest ← slice_from raw pos; len ← read_u32 endian rest; ok (some (pos + 4 + len + 1))

-- over a signature: 1 byte of length, the signature and its null byte
skip_signature : Bytes → ℕ → ℕ → Result (Option ℕ)
skip_signature raw fields_end pos =
    if leb fields_end pos then ok none else do len ← index raw pos; ok (some (pos + (1 + len + 1)))

skip_array : Bytes → Order → ℕ → ℕ → Result (Option ℕ)
skip_array raw endian fields_end pos =
    if ltb fields_end (pos + 4)
    then ok none
    else do rest ← slice_from raw pos; len ← read_u32 endian rest; ok (some (pos + (4 + len)))

-- the value inside a variant
skip_inner : Bytes → Order → ℕ → ℕ → ℕ → Result (Option ℕ)
unfolding is_one_of_4 is_one_of_8 is_string
skip_inner raw endian fields_end b pos =
    if is_string b
    then skip_string raw endian fields_end pos
    else if b == b'g'
    then skip_signature raw fields_end pos
    else if is_one_of_4 b
    then ok (some (pos + 4))
    else if b == b'n' || b == b'q'
    then ok (some (pos + 2))
    else if is_one_of_8 b
    then ok (some (pos + 8))
    else if b == b'y'
    then ok (some (pos + 1))
    else ok none

skip_variant : Bytes → Order → ℕ → ℕ → Result (Option ℕ)
skip_variant raw endian fields_end pos = if leb fields_end pos then ok none else do
  vsig_len ← index raw pos
  if ltb fields_end (pos + 1 + vsig_len + 1) then ok none else do
    vsig_byte ← (if ltb 0 vsig_len then index raw (pos + 1) else ok 0)
    skip_inner raw endian fields_end vsig_byte
        (align_to (variant_align vsig_byte) (pos + (1 + vsig_len + 1)))

skip_by_type : Bytes → Order → ℕ → ℕ → ℕ → Result (Option ℕ)
unfolding is_one_of_4 is_one_of_8 is_string
skip_by_type raw endian fields_end pos b =
    if is_string b
    then skip_string raw endian fields_end pos
    else if b == b'g'
    then skip_signature raw fields_end pos
    else if is_one_of_4 b
    then ok (some (pos + 4))
    else if b == b'n' || b == b'q'
    then ok (some (pos + 2))
    else if is_one_of_8 b
    then ok (some (pos + 8))
    else if b == b'y'
    then ok (some (pos + 1))
    else if b == b'a'
    then skip_array raw endian fields_end pos
    else if b == b'v'
    then skip_variant raw endian fields_end pos
    else ok none

-- Over the value at `pos`. The type byte is read again at the distance of the signature's length,
-- but from the value, behind the alignment. `none` is a `break`.
pub skip_value : Bytes → Order → ℕ → ℕ → ℕ → Result (Option ℕ)
skip_value raw endian fields_end sig_len pos = do
  b ← sig_byte_before raw sig_len pos
  skip_by_type raw endian fields_end pos b

go_on : (ℕ → Result ScanResult) → Option ℕ → Result ScanResult
go_on again none = ok not_found
go_on again (some pos) = again pos

visit : Bytes → Order → ℕ → ℕ → (ℕ → Result ScanResult) → Option FieldHead → Result ScanResult
visit raw endian field_code fields_end again none = ok not_found
visit raw endian field_code fields_end again (some head) =
    if head.code == field_code
    then ok (found head.value)
    else do next ← skip_value raw endian fields_end head.sig_len head.value; go_on again next

-- `while pos < fields_end`, on fuel.
scan : ℕ → Bytes → Order → ℕ → ℕ → ℕ → Result ScanResult
scan zero raw endian field_code fields_end pos = ok out_of_fuel
scan (suc fuel) raw endian field_code fields_end pos =
    if not (ltb pos fields_end) then ok not_found else do
      head ← field_head raw fields_end pos
      visit raw endian field_code fields_end (scan fuel raw endian field_code fields_end) head

-- The loop from the first field on; its fuel is enough, since every field takes a byte.
unfoldable pub find_field : Bytes → Order → ℕ → ℕ → Result ScanResult
unfolding scan visit go_on skip_value skip_by_type skip_variant skip_inner skip_array skip_signature
    skip_string field_head sig_byte_before value_align variant_align
find_field raw endian field_code array_len =
    scan (array_len + 1) raw endian field_code (16 + array_len) 16
