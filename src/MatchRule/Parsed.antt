-- ===== src/MatchRule/Parsed.antt =====
-- The two readers on a rule that is laid out as the specification has it.
use mathlib.Core.List.{append_assoc}
use dbus_router.MatchRule.Rule.{
  Assignment, text_of, rule_of, equals_quote, IsPlain, IsAssignment, IsOther, up_to_equals,
  up_to_equals-plain,
}
use dbus_router.MatchRule.{sender_of_part, sender_of_parts, parse_match_rule_sender}
use dbus_router.Prelude.{
  ◌≡◌, refl, sym, ap, ◌∙◌, none, some, List, [], ◌∷◌, ◌++◌, All, map, arith, Bytes, codes,
  strip_prefix, strip_prefix-append, strip_prefix-eq-some, strip_suffix-append, Option-cases, inl,
  inr,
}
use dbus_router.Text.Split.{HasNoComma, split-join}
use dbus_router.Text.Trim.{trim, trim-visible}
use dbus_router.Text.{split}

plain-HasNoComma : (s rest : Bytes) → All IsPlain s → HasNoComma rest → HasNoComma (s ++ rest)
plain-HasNoComma [] rest p h = h
plain-HasNoComma (c ∷ s) rest (p, ps) h = (p.no_comma, plain-HasNoComma s rest ps h)

text_of-HasNoComma : (a : Assignment) → IsAssignment a → HasNoComma (text_of a)
text_of-HasNoComma (key, value) is = plain-HasNoComma key _ (rw is.key_is is.plain_key) (
  λ e. omega (arith, e),
  (λ e. omega (arith, e), plain-HasNoComma value _ is.plain_value (λ e. omega (arith, e), tt)),
)

texts-HasNoComma :
    (rule : List Assignment) → All IsAssignment rule → All HasNoComma (map text_of rule)
texts-HasNoComma [] is = tt
texts-HasNoComma (a ∷ rule) (i, is) = (text_of-HasNoComma a i, texts-HasNoComma rule is)

pub split-rule_of :
    (a : Assignment) (rule : List Assignment)
    → All IsAssignment (a ∷ rule)
    → split b',' (rule_of (a ∷ rule)) ≡ map text_of (a ∷ rule)
split-rule_of a rule is = split-join (text_of a) (map text_of rule) (texts-HasNoComma (a ∷ rule) is)

pub trim-text_of : (a : Assignment) → IsAssignment a → trim (text_of a) ≡ text_of a
trim-text_of (key, value) is =
    let middle = is.others ++ (equals_quote ++ value) in
    let written : key ++ (equals_quote ++ (value ++ codes "'"))
        ≡ is.first ∷ (middle ++ b'\'' ∷ []) =
      ap (λ (k : Bytes). k ++ (equals_quote ++ (value ++ codes "'"))) is.key_is
      ∙ ap (λ s. is.first ∷ s) (sym (append_assoc is.others (equals_quote ++ value) (codes "'"))) in
    ap trim written
    ∙ trim-visible is.first b'\'' middle is.plain_key.0.above is.plain_key.0.below (omega arith)
        (omega arith)
    ∙ sym written

-- A key that is not the sender's is passed over.
up_to_equals-text_of : (a : Assignment) → IsAssignment a → up_to_equals (text_of a) ≡ a.0
up_to_equals-text_of (key, value) is = up_to_equals-plain key _ (rw is.key_is is.plain_key)

prefix-none :
    (p : Bytes) (a : Assignment)
    → ((t : Bytes) → up_to_equals (p ++ t) ≡ codes "sender")
    → IsAssignment a
    → IsOther a
    → strip_prefix p (text_of a) ≡ none
prefix-none p a says is other = elim (Option-cases (strip_prefix p (text_of a))) [
  | inl e ↦ e
  | inr (t, e) ↦ absurd (
      other [] (
        sym (up_to_equals-text_of a is)
        ∙ ap up_to_equals (strip_prefix-eq-some p (text_of a) t e)
        ∙ says t))
]

sender_of_part-other :
    (a : Assignment) → IsAssignment a → IsOther a → sender_of_part (text_of a) ≡ none
unfolding up_to_equals
sender_of_part-other a is other =
    rw
      (
        prefix-none (codes "sender='") a (λ t. refl) is other,
        prefix-none (codes "sender=") a (λ t. refl) is other,
      )
      refl

sender_of_part-sender :
    (value : Bytes) → sender_of_part (text_of (codes "sender", value)) ≡ some value
sender_of_part-sender value =
    rw
      (
        strip_prefix-append (codes "sender='") (value ++ codes "'"),
        strip_suffix-append (codes "'") value,
      )
      refl

sender_of_parts-rule_of :
    (before after : List Assignment) (value : Bytes)
    → All IsAssignment before
    → All IsOther before
    → IsAssignment (codes "sender", value)
    → sender_of_parts (map text_of (before ++ (codes "sender", value) ∷ after)) ≡ some value
unfolding sender_of_parts
sender_of_parts-rule_of [] after value is os i =
    rw (trim-text_of (codes "sender", value) i, sender_of_part-sender value) refl
sender_of_parts-rule_of (a ∷ before) after value (i, is) (o, os) s =
    rw (trim-text_of a i, sender_of_part-other a i o)
      (sender_of_parts-rule_of before after value is os s)

-- The sender of a rule is the value of its first assignment whose key is `sender`.
pub parse_match_rule_sender-rule_of :
    (before after : List Assignment) (value : Bytes)
    → All IsAssignment (before ++ (codes "sender", value) ∷ after)
    → All IsAssignment before
    → All IsOther before
    → IsAssignment (codes "sender", value)
    → parse_match_rule_sender (rule_of (before ++ (codes "sender", value) ∷ after)) ≡ some value
unfolding parse_match_rule_sender
parse_match_rule_sender-rule_of [] after value all is os i =
    ap sender_of_parts (split-rule_of (codes "sender", value) after all)
    ∙ sender_of_parts-rule_of [] after value is os i
parse_match_rule_sender-rule_of (a ∷ before) after value all is os i =
    ap sender_of_parts (split-rule_of a (before ++ (codes "sender", value) ∷ after) all)
    ∙ sender_of_parts-rule_of (a ∷ before) after value is os i
