-- ===== src/MatchRule/Rule.antt =====
-- Match rules as they are written: assignments with commas between them.
use dbus_router.Prelude.{
  ℕ, ◌==◌, if◌then◌else◌, ◌<◌, ◌≡◌, ◌≢◌, refl, List, [], ◌∷◌, ◌++◌, All, map, arith, Bytes, codes,
}
use dbus_router.Text.{join}

-- A key and its value.
abbrev pub Assignment : Type 0
Assignment = Bytes × Bytes

abbrev pub equals_quote : Bytes
equals_quote = codes "='"

abbrev pub text_of : Assignment → Bytes
text_of (key, value) = key ++ (equals_quote ++ (value ++ codes "'"))

abbrev pub rule_of : List Assignment → Bytes
rule_of assignments = join b',' (map text_of assignments)

-- A byte of a key or a value: visible ASCII, and none of those that divide a rule.
pub record IsPlain (b : ℕ) : Type 0 where
  pub above : 32 < b
  pub below : b < 127
  pub no_quote : b ≢ b'\''
  pub no_comma : b ≢ b','
  pub no_equals : b ≢ b'='

-- A key and a value of such bytes; the key is not empty.
pub record IsAssignment (a : Assignment) : Type 0 where
  pub first : ℕ
  pub others : Bytes
  pub key_is : a.0 ≡ first ∷ others
  pub plain_key : All IsPlain (first ∷ others)
  pub plain_value : All IsPlain a.1

-- The key is not `sender`, nor does it end in it.
abbrev pub IsOther : Assignment → Type 0
IsOther a = (front : Bytes) → a.0 ≢ front ++ codes "sender"

-- The bytes up to the first '='.
unfoldable pub up_to_equals : Bytes → Bytes
up_to_equals [] = []
up_to_equals (c ∷ s) = let rest = up_to_equals s in if c == b'=' then [] else c ∷ rest

pub up_to_equals-plain : (s rest : Bytes) → All IsPlain s → up_to_equals (s ++ b'=' ∷ rest) ≡ s
unfolding up_to_equals
up_to_equals-plain [] rest p = refl
up_to_equals-plain (c ∷ s) rest (p, ps) =
    let ne = p.no_equals in rw (up_to_equals-plain s rest ps) (ground arith)

pub up_to_equals-quote :
    (s rest : Bytes)
    → All IsPlain s
    → up_to_equals (s ++ b'\'' ∷ rest) ≡ s ++ b'\'' ∷ up_to_equals rest
unfolding up_to_equals
up_to_equals-quote [] rest p = refl
up_to_equals-quote (c ∷ s) rest (p, ps) =
    let ne = p.no_equals in rw (up_to_equals-quote s rest ps) (ground arith)
