-- ===== src/MatchRule/Info.antt =====
-- What `parse_match_rule` reads as the sender of a rule.
use dbus_router.MatchRule.Rule.{Assignment, text_of, rule_of, IsPlain, IsAssignment, IsOther}
use dbus_router.MatchRule.Parsed.{split-rule_of, trim-text_of}
use dbus_router.MatchRule.{
  MatchRuleInfo, no_info, set_info, info_of_part, info_of_parts, parse_match_rule,
}
use dbus_router.Prelude.{
  ◌<◌, length, ◌≡◌, ◌≢◌, refl, ap, ◌∙◌, false, some, List, [], ◌∷◌, ◌++◌, All, map, arith, Bytes,
  codes, str_eq, str_eq_iff, Bool-cases, inl, inr,
}
use dbus_router.Text.Trim.{trim, trim_matches-around}
use dbus_router.Text.{split_once}

split_once-plain :
    (key rest : Bytes) → All IsPlain key → split_once b'=' (key ++ b'=' ∷ rest) ≡ some (key, rest)
unfolding split_once
split_once-plain [] rest p = refl
split_once-plain (c ∷ key) rest (p, ps) =
    let ne = p.no_equals in rw (split_once-plain key rest ps) (ground arith)

split_once-text_of :
    (a : Assignment)
    → IsAssignment a
    → split_once b'=' (text_of a) ≡ some (a.0, b'\'' ∷ (a.1 ++ b'\'' ∷ []))
split_once-text_of (key, value) is = split_once-plain key _ (rw is.key_is is.plain_key)

set_info-other :
    (info : MatchRuleInfo) (key value : Bytes)
    → str_eq key (codes "sender") ≡ false
    → (set_info info key value).sender ≡ info.sender
unfolding set_info
set_info-other info key value h = rw h (ground arith)

not_sender : (a : Assignment) → IsOther a → str_eq a.0 (codes "sender") ≡ false
not_sender a other = elim (Bool-cases (str_eq a.0 (codes "sender"))) [
  | inl h ↦ absurd (other [] ((str_eq_iff a.0 (codes "sender")).0 h))
  | inr h ↦ h
]

plain-no_quote : (s : Bytes) → All IsPlain s → All (λ b. b ≢ b'\'') s
plain-no_quote [] p = tt
plain-no_quote (c ∷ s) (p, ps) = (p.no_quote, plain-no_quote s ps)

info_of_text : MatchRuleInfo → Assignment → MatchRuleInfo
info_of_text info a = info_of_part info (split_once b'=' (trim (text_of a)))

info_of_text-other :
    (info : MatchRuleInfo) (a : Assignment)
    → IsAssignment a
    → IsOther a
    → (info_of_text info a).sender ≡ info.sender
unfolding info_of_text info_of_part
info_of_text-other info a is other =
    rw (trim-text_of a is, split_once-text_of a is) (set_info-other info a.0 _ (not_sender a other))

info_of_text-sender :
    (info : MatchRuleInfo) (value : Bytes)
    → IsAssignment (codes "sender", value)
    → 0 < length value
    → (info_of_text info (codes "sender", value)).sender ≡ some value
unfolding info_of_text info_of_part set_info str_eq
info_of_text-sender info value is some_bytes =
    rw
      (
        trim-text_of (codes "sender", value) is,
        split_once-text_of (codes "sender", value) is,
        trim_matches-around b'\'' value some_bytes (plain-no_quote value is.plain_value),
      )
      refl

info_of_parts-others :
    (info : MatchRuleInfo) (rule : List Assignment)
    → All IsAssignment rule
    → All IsOther rule
    → (info_of_parts info (map text_of rule)).sender ≡ info.sender
unfolding info_of_parts info_of_text
info_of_parts-others info [] is os = refl
info_of_parts-others info (a ∷ rule) (i, is) (o, os) =
    info_of_parts-others (info_of_text info a) rule is os ∙ info_of_text-other info a i o

info_of_parts-sender :
    (info : MatchRuleInfo) (before after : List Assignment) (value : Bytes)
    → All IsAssignment before
    → IsAssignment (codes "sender", value)
    → 0 < length value
    → All IsAssignment after
    → All IsOther after
    → (info_of_parts info (map text_of (before ++ (codes "sender", value) ∷ after))).sender
      ≡ some value
unfolding info_of_parts info_of_text
info_of_parts-sender info [] after value is i some_bytes js qs =
    info_of_parts-others (info_of_text info (codes "sender", value)) after js qs
    ∙ info_of_text-sender info value i some_bytes
info_of_parts-sender info (a ∷ before) after value (_, is) i some_bytes js qs =
    info_of_parts-sender (info_of_text info a) before after value is i some_bytes js qs

-- The sender that is read for routing is the value of the last assignment whose key is `sender`.
pub parse_match_rule-rule_of :
    (before after : List Assignment) (value : Bytes)
    → All IsAssignment (before ++ (codes "sender", value) ∷ after)
    → All IsAssignment before
    → IsAssignment (codes "sender", value)
    → 0 < length value
    → All IsAssignment after
    → All IsOther after
    → (parse_match_rule (rule_of (before ++ (codes "sender", value) ∷ after))).sender ≡ some value
unfolding parse_match_rule
parse_match_rule-rule_of [] after value all is i some_bytes js qs =
    ap (λ (l : List Bytes). (info_of_parts no_info l).sender)
      (split-rule_of (codes "sender", value) after all)
    ∙ info_of_parts-sender no_info [] after value is i some_bytes js qs
parse_match_rule-rule_of (a ∷ before) after value all is i some_bytes js qs =
    ap (λ (l : List Bytes). (info_of_parts no_info l).sender)
      (split-rule_of a (before ++ (codes "sender", value) ∷ after) all)
    ∙ info_of_parts-sender no_info (a ∷ before) after value is i some_bytes js qs
