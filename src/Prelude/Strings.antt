-- ===== src/Prelude/Strings.antt =====
-- Byte strings: a Rust `str`, `String`, path or `[u8]` is the list of its bytes. Of the standard
-- library's string functions, those that compare and strip.
use Prim.Native.Char.{code}
use Prim.Native.String.{String}
use Prim.Native.Nat.{ℕ}
use mathlib.Core.Path.{◌≡◌, refl, sym, ap, ◌∙◌}
use mathlib.Core.Logic.{◌↔◌}
use mathlib.Core.Bool.{Bool, true, false, ◌&&◌}
use mathlib.Core.List.{List, [], ◌∷◌, ◌++◌, reverse, reverse-append, reverse-reverse}
use mathlib.Core.Option.{Option, none, some}
use native.Mathlib.Omega.{arith}
use dbus_router.Prelude.Tests.{◌==◌, if◌then◌else◌}

abbrev pub Bytes : Type 0
Bytes = List ℕ

-- The bytes of an ASCII literal.
abbrev pub codes : String → Bytes
codes String.[] = []
codes (String.◌∷◌ c s) = code c ∷ codes s

-- `a == b`
unfoldable pub str_eq : Bytes → Bytes → Bool
str_eq [] [] = true
str_eq (x ∷ xs) (y ∷ ys) = x == y && str_eq xs ys
str_eq _ _ = false

pub str_eq_iff : (a b : Bytes) → (str_eq a b ≡ true) ↔ (a ≡ b)
unfolding str_eq
str_eq_iff (x ∷ a) (y ∷ b) = ground (arith, str_eq_iff a b)
str_eq_iff _ _ = ground arith

pub str_eq_refl : (a : Bytes) → str_eq a a ≡ true
str_eq_refl a = (str_eq_iff a a).1 refl

-- `s.strip_prefix(p)`
unfoldable pub strip_prefix : Bytes → Bytes → Option Bytes
strip_prefix [] s = some s
strip_prefix (x ∷ p) [] = none
strip_prefix (x ∷ p) (y ∷ s) = if x == y then strip_prefix p s else none

pub strip_prefix-append : (p s : Bytes) → strip_prefix p (p ++ s) ≡ some s
unfolding strip_prefix
strip_prefix-append [] s = refl
strip_prefix-append (x ∷ p) s = ground (arith, strip_prefix-append p s)

pub strip_prefix-eq-some : (p s r : Bytes) → strip_prefix p s ≡ some r → s ≡ p ++ r
unfolding strip_prefix
strip_prefix-eq-some [] s r h = ground arith
strip_prefix-eq-some (x ∷ p) [] r h = ground arith
strip_prefix-eq-some (x ∷ p) (y ∷ s) r h = ground (arith, strip_prefix-eq-some p s r)

-- `s.starts_with(p)`
abbrev pub is_some {ℓ} : {A : Type ℓ} → Option A → Bool
is_some none = false
is_some (some _) = true

unfoldable pub starts_with : Bytes → Bytes → Bool
starts_with p s = is_some (strip_prefix p s)

abbrev reversed : Option Bytes → Option Bytes
reversed none = none
reversed (some r) = some (reverse r)

-- `s.strip_suffix(p)`
unfoldable pub strip_suffix : Bytes → Bytes → Option Bytes
strip_suffix p s = reversed (strip_prefix (reverse p) (reverse s))

pub strip_suffix-append : (p s : Bytes) → strip_suffix p (s ++ p) ≡ some s
unfolding strip_suffix
strip_suffix-append p s =
    ap (λ (u : Bytes). reversed (strip_prefix (reverse p) u)) (reverse-append s p)
    ∙ ap reversed (strip_prefix-append (reverse p) (reverse s))
    ∙ ap some (reverse-reverse s)

reverse_split : (p s t r : Bytes) → reverse s ≡ reverse p ++ t → reverse t ≡ r → s ≡ r ++ p
reverse_split p s t r h e =
    sym (reverse-reverse s)
    ∙ ap reverse h
    ∙ reverse-append (reverse p) t
    ∙ ap (λ (u : Bytes). reverse t ++ u) (reverse-reverse p)
    ∙ ap (λ (u : Bytes). u ++ p) e

pub strip_suffix-eq-some : (p s r : Bytes) → strip_suffix p s ≡ some r → s ≡ r ++ p
unfolding strip_suffix
strip_suffix-eq-some p s r h = go (strip_prefix (reverse p) (reverse s)) refl h
  where
    go :
        (o : Option Bytes)
        → strip_prefix (reverse p) (reverse s) ≡ o
        → reversed o ≡ some r
        → s ≡ r ++ p
    go none e h = cc
    go (some t) e h = reverse_split p s t r (strip_prefix-eq-some (reverse p) (reverse s) t e) (cc)
