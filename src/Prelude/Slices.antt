-- ===== src/Prelude/Slices.antt =====
-- Indexing and slicing of byte buffers, which panic out of bounds, and alignment.
use Prim.Native.Nat.{ℕ, zero, suc, ◌+◌, ◌-◌, ◌*◌, ◌/◌, ◌%◌}
use mathlib.Core.Path.{◌≡◌, refl}
use mathlib.Core.Bool.{◌&&◌}
use mathlib.Core.Option.{some}
use mathlib.Core.List.{[], ◌∷◌, ◌++◌}
use native.Mathlib.Omega.{arith}
use dbus_router.Prelude.Tests.{leb, if◌then◌else◌}
use dbus_router.Prelude.Lists.{
  length, get_elem?, take, drop, length-append, take-append, drop-append,
}
use dbus_router.Prelude.Strings.{Bytes}
use dbus_router.Prelude.Outcome.{Result, ok, panic, or_panic}

-- `raw[i]`
unfoldable pub index : Bytes → ℕ → Result ℕ
index raw i = or_panic (get_elem? raw i)

-- `raw[from..]`
unfoldable pub slice_from : Bytes → ℕ → Result Bytes
slice_from raw from = if leb from (length raw) then ok (drop from raw) else panic

-- `raw[from..to]`
unfoldable pub slice : Bytes → ℕ → ℕ → Result Bytes
slice raw from to =
    if leb from to && leb to (length raw) then ok (take (to - from) (drop from raw)) else panic

-- `(8 - (n % 8)) % 8`
abbrev pub padding_to_8 : ℕ → ℕ
padding_to_8 n = (8 - n % 8) % 8

-- `(pos + align - 1) & !(align - 1)`, where `align` is a power of two
abbrev pub align_to : ℕ → ℕ → ℕ
align_to align pos = (pos + align - 1) / align * align

-- A slice of a buffer, given the pieces that the buffer is made of.
pub slice_from_split :
    (raw pre rest : Bytes) (from : ℕ)
    → raw ≡ pre ++ rest
    → from ≡ length pre
    → slice_from raw from ≡ ok rest
unfolding slice_from
slice_from_split raw pre rest from e f =
    rw (e, f) (ground (arith, length-append pre rest, drop-append (length pre) pre rest refl))

pub slice_split :
    (raw pre mid rest : Bytes) (from to : ℕ)
    → raw ≡ pre ++ (mid ++ rest)
    → from ≡ length pre
    → to ≡ length pre + length mid
    → slice raw from to ≡ ok mid
unfolding slice
slice_split raw pre mid rest from to e f t = rw e (
    ground (
      arith,
      length-append pre (mid ++ rest),
      length-append mid rest,
      drop-append from pre (mid ++ rest),
      take-append (to - from) mid rest,
    ))

get_elem?-append :
    (pre rest : Bytes) (c i : ℕ) → i ≡ length pre → get_elem? (pre ++ c ∷ rest) i ≡ some c
get_elem?-append [] rest c zero e = refl
get_elem?-append [] rest c (suc i) e = absurd (omega arith)
get_elem?-append (x ∷ pre) rest c zero e = absurd (omega arith)
get_elem?-append (x ∷ pre) rest c (suc i) e = get_elem?-append pre rest c i (omega arith)

pub index_split :
    (raw pre rest : Bytes) (c i : ℕ) → raw ≡ pre ++ c ∷ rest → i ≡ length pre → index raw i ≡ ok c
unfolding index
index_split raw pre rest c i e f = rw (e, get_elem?-append pre rest c i f)
