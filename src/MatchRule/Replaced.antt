-- ===== src/MatchRule/Replaced.antt =====
-- `rewrite_match_rule_sender` on a rule that is laid out as the specification has it.
use mathlib.Core.List.{append_assoc, append-nil}
use dbus_router.MatchRule.Rule.{
  Assignment, text_of, rule_of, equals_quote, IsPlain, IsAssignment, IsOther, up_to_equals,
  up_to_equals-plain, up_to_equals-quote,
}
use dbus_router.MatchRule.{quoted_sender, rewrite_match_rule_sender}
use dbus_router.Prelude.{
  ◌==◌, ◌||◌, Bool, Option, ◌≡◌, ◌≢◌, refl, sym, ap, ◌∙◌, true, false, none, some, List, [], ◌∷◌,
  ◌++◌, All, arith, Bytes, codes, strip_prefix, strip_prefix-eq-some, starts_with, is_some,
  Bool-cases, inl, inr,
}
use dbus_router.Text.Replace.{IsClear, IsClear-append, replace-between}
use dbus_router.Text.{join, replace}

starts_with-split : (p s : Bytes) → starts_with p s ≡ true → (t : Bytes) × (s ≡ p ++ t)
unfolding starts_with
starts_with-split p s h = go (strip_prefix p s) refl h
  where
    go : (o : Option Bytes) → strip_prefix p s ≡ o → is_some o ≡ true → (t : Bytes) × (s ≡ p ++ t)
    go none e h = cc
    go (some t) e h = (t, strip_prefix-eq-some p s t e)

-- a quote
has_quote : Bytes → Bool
has_quote [] = false
has_quote (c ∷ s) = c == b'\'' || has_quote s

has_quote-append : (s rest : Bytes) → has_quote (s ++ b'\'' ∷ rest) ≡ true
unfolding has_quote
has_quote-append [] rest = ground arith
has_quote-append (c ∷ s) rest = ground (arith, has_quote-append s rest)

quote_not_sender : (s rest : Bytes) → s ++ b'\'' ∷ rest ≢ codes "sender"
quote_not_sender s rest e =
    let quote = has_quote-append s rest in
    let none_there : has_quote (codes "sender") ≡ false = unfold has_quote in refl in
    cc (quote, ap has_quote e, none_there)

module _ (old : Bytes) where
  up_to_equals-quoted : (t : Bytes) → up_to_equals (quoted_sender old ++ t) ≡ codes "sender"
  unfolding up_to_equals
  up_to_equals-quoted t = refl

  not_here :
      (s : Bytes) → up_to_equals s ≢ codes "sender" → starts_with (quoted_sender old) s ≡ false
  not_here s ne = elim (Bool-cases (starts_with (quoted_sender old) s)) [
    | inl h ↦
        let (t, e) = starts_with-split (quoted_sender old) s h in
        absurd (ne (ap up_to_equals e ∙ up_to_equals-quoted t))
    | inr h ↦ h
  ]

  key-IsClear :
      (key rest : Bytes)
      → All IsPlain key
      → ((front : Bytes) → key ≢ front ++ codes "sender")
      → IsClear (quoted_sender old) key (b'=' ∷ rest)
  key-IsClear [] rest p other = tt
  key-IsClear (c ∷ key) rest (p, ps) other = (
    not_here _ (λ e. other [] (sym (up_to_equals-plain (c ∷ key) rest (p, ps)) ∙ e)),
    key-IsClear key rest ps (λ front e. other (c ∷ front) (ap (λ s. c ∷ s) e)),
  )

  value-IsClear :
      (value rest : Bytes) → All IsPlain value → IsClear (quoted_sender old) value (b'\'' ∷ rest)
  value-IsClear [] rest p = tt
  value-IsClear (c ∷ value) rest (p, ps) = (
    not_here _ (λ e.
        quote_not_sender (c ∷ value) (up_to_equals rest)
          (sym (up_to_equals-quote (c ∷ value) rest (p, ps)) ∙ e)),
    value-IsClear value rest ps,
  )

  text_of-IsClear :
      (a : Assignment) (rest : Bytes)
      → IsAssignment a
      → IsOther a
      → IsClear (quoted_sender old) (text_of a) rest
  unfolding starts_with strip_prefix
  text_of-IsClear (key, value) rest is other =
      IsClear-append (quoted_sender old) key (equals_quote ++ (value ++ codes "'")) rest
        (key-IsClear key _ (rw is.key_is is.plain_key) other)
        (IsClear-append (quoted_sender old) equals_quote (value ++ codes "'") rest
          (refl, (refl, tt))
          (IsClear-append (quoted_sender old) value (codes "'") rest
            (value-IsClear value rest is.plain_value) (refl, tt)))

  comma-IsClear : (rest : Bytes) → starts_with (quoted_sender old) (b',' ∷ rest) ≡ false
  unfolding starts_with strip_prefix
  comma-IsClear rest = refl

  rule_of-IsClear :
      (a : Assignment) (rule : List Assignment)
      → All IsAssignment (a ∷ rule)
      → All IsOther (a ∷ rule)
      → IsClear (quoted_sender old) (rule_of (a ∷ rule)) []
  unfolding join
  rule_of-IsClear a [] (i, _) (o, _) = text_of-IsClear a [] i o
  rule_of-IsClear a (b ∷ rule) (i, is) (o, os) =
      IsClear-append (quoted_sender old) (text_of a) (b',' ∷ rule_of (b ∷ rule)) []
        (text_of-IsClear a _ i o)
        (comma-IsClear (rule_of (b ∷ rule) ++ []), rule_of-IsClear b rule is os)

-- The assignments before the sender, each with a comma behind it, and those behind it, each with one
-- before it.
lead : List Assignment → Bytes
lead [] = []
lead (a ∷ rule) = text_of a ++ b',' ∷ lead rule

trail : List Assignment → Bytes
trail [] = []
trail (a ∷ rule) = b',' ∷ rule_of (a ∷ rule)

rule_of-lead :
    (before after : List Assignment) (sender : Bytes)
    → rule_of (before ++ (codes "sender", sender) ∷ after)
      ≡ lead before ++ (quoted_sender sender ++ trail after)
unfolding join lead trail
rule_of-lead [] [] sender = sym (append-nil (quoted_sender sender))
rule_of-lead [] (a ∷ after) sender = refl
rule_of-lead (a ∷ []) after sender =
    ap (λ s. text_of a ++ b',' ∷ s) (rule_of-lead [] after sender)
    ∙ sym (append_assoc (text_of a) (b',' ∷ []) (quoted_sender sender ++ trail after))
rule_of-lead (a ∷ b ∷ before) after sender =
    ap (λ s. text_of a ++ b',' ∷ s) (rule_of-lead (b ∷ before) after sender)
    ∙ sym
        (append_assoc (text_of a) (b',' ∷ lead (b ∷ before)) (quoted_sender sender ++ trail after))

lead-IsClear :
    (old : Bytes) (before : List Assignment) (rest : Bytes)
    → All IsAssignment before
    → All IsOther before
    → IsClear (quoted_sender old) (lead before) rest
unfolding lead
lead-IsClear old [] rest is os = tt
lead-IsClear old (a ∷ before) rest (i, is) (o, os) =
    IsClear-append (quoted_sender old) (text_of a) (b',' ∷ lead before) rest
      (text_of-IsClear old a _ i o)
      (comma-IsClear old (lead before ++ rest), lead-IsClear old before rest is os)

trail-IsClear :
    (old : Bytes) (after : List Assignment)
    → All IsAssignment after
    → All IsOther after
    → IsClear (quoted_sender old) (trail after) []
unfolding trail
trail-IsClear old [] is os = tt
trail-IsClear old (a ∷ after) is os =
    (comma-IsClear old (rule_of (a ∷ after) ++ []), rule_of-IsClear old a after is os)

-- Of a rule in which one assignment is the sender, and no other key is `sender` or ends in it,
-- exactly the value of the sender is replaced.
pub rewrite_match_rule_sender-rule_of :
    (before after : List Assignment) (old_sender new_sender : Bytes)
    → All IsAssignment before
    → All IsOther before
    → All IsAssignment after
    → All IsOther after
    → rewrite_match_rule_sender
        (rule_of (before ++ (codes "sender", old_sender) ∷ after))
        old_sender
        new_sender
      ≡ rule_of (before ++ (codes "sender", new_sender) ∷ after)
unfolding rewrite_match_rule_sender
rewrite_match_rule_sender-rule_of before after old_sender new_sender is os js qs =
    ap (replace (quoted_sender old_sender) (quoted_sender new_sender))
      (rule_of-lead before after old_sender)
    ∙ replace-between b's' _ (quoted_sender new_sender) (lead before) (trail after)
        (lead-IsClear old_sender before _ is os) (trail-IsClear old_sender after js qs)
    ∙ sym (rule_of-lead before after new_sender)
