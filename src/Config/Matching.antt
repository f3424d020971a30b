-- ===== src/Config/Matching.antt =====
-- What a routing rule covers, described without the tests that the code makes.
use dbus_router.Prelude.{
  ◌≡◌, ◌≢◌, refl, sym, ◌∙◌, ap, ◌↔◌, inl, inr, true, Option, none, some, List, [], ◌∷◌, ◌++◌, arith,
  Bytes, Bool-cases, codes, str_eq, str_eq_iff, str_eq_refl, strip_prefix, strip_prefix-append,
  strip_prefix-eq-some, strip_suffix, strip_suffix-append, strip_suffix-eq-some, starts_with,
}
use dbus_router.Config.{
  RouteRule, Config, dot_follows, rule_matches, matches, any_rule, should_route_to_host,
}

-- A pattern "p.*" covers p and every name below it, and any other pattern covers itself.
pub data Covers (pattern name : Bytes) : Type 0 where
  root : pattern ≡ name ++ codes ".*" → Covers pattern name
  below :
      (prefix rest : Bytes)
      → pattern ≡ prefix ++ codes ".*"
      → name ≡ prefix ++ (codes "." ++ rest)
      → Covers pattern name
  exact : ((prefix : Bytes) → pattern ≢ prefix ++ codes ".*") → pattern ≡ name → Covers pattern name

-- Some rule of the list covers the name.
pub data SomeCovers (name : Bytes) : List RouteRule → Type 0 where
  first :
      {rule : RouteRule} {rules : List RouteRule}
      → Covers rule.destination name
      → SomeCovers name (rule ∷ rules)
  later :
      {rule : RouteRule} {rules : List RouteRule}
      → SomeCovers name rules
      → SomeCovers name (rule ∷ rules)

dot_follows_iff :
    (rest : Bytes) → starts_with (codes ".") rest ≡ true → (r : Bytes) × (rest ≡ codes "." ++ r)
unfolding starts_with strip_prefix
dot_follows_iff [] h = ground arith
dot_follows_iff (c ∷ r) h = (r, ground arith)

wildcard-Covers :
    (pattern prefix name : Bytes)
    → pattern ≡ prefix ++ codes ".*"
    → (o : Option Bytes) → strip_prefix prefix name ≡ o
    → dot_follows o ≡ true
    → Covers pattern name
wildcard-Covers pattern prefix name p none e h = cc
wildcard-Covers pattern prefix name p (some rest) e h =
    let (r, d) = dot_follows_iff rest h in
    below prefix r p (strip_prefix-eq-some prefix name rest e ∙ ap (λ (u : Bytes). prefix ++ u) d)

rule_matches-Covers :
    (pattern name : Bytes) (o : Option Bytes)
    → strip_suffix (codes ".*") pattern ≡ o
    → rule_matches pattern name o ≡ true
    → Covers pattern name
rule_matches-Covers pattern name none e h =
    exact
      (λ prefix p. cc (ap (strip_suffix (codes ".*")) p, strip_suffix-append (codes ".*") prefix))
      ((str_eq_iff pattern name).0 h)
rule_matches-Covers pattern name (some prefix) e h = elim (Bool-cases (str_eq name prefix)) [
  | inl same ↦ root (
      strip_suffix-eq-some (codes ".*") pattern prefix e
      ∙ ap (λ (u : Bytes). u ++ codes ".*") (sym ((str_eq_iff name prefix).0 same)))
  | inr other ↦
      wildcard-Covers pattern prefix name (strip_suffix-eq-some (codes ".*") pattern prefix e)
        (strip_prefix prefix name) refl (rw other at h)
]

wildcard_forced :
    (pattern prefix : Bytes) (o : Option Bytes)
    → strip_suffix (codes ".*") pattern ≡ o
    → pattern ≡ prefix ++ codes ".*"
    → o ≡ some prefix
wildcard_forced pattern prefix o e p =
    sym e ∙ ap (strip_suffix (codes ".*")) p ∙ strip_suffix-append (codes ".*") prefix

below-rule_matches :
    (pattern name prefix rest : Bytes)
    → name ≡ prefix ++ (codes "." ++ rest)
    → rule_matches pattern name (some prefix) ≡ true
below-rule_matches pattern name prefix rest n = elim (Bool-cases (str_eq name prefix)) [
  | inl same ↦ rw same
  | inr other ↦
      let e : strip_prefix prefix name ≡ some (codes "." ++ rest) =
        ap (strip_prefix prefix) n ∙ strip_prefix-append prefix (codes "." ++ rest) in
      rw (other, e) (unfold starts_with strip_prefix in refl)
]

Covers-rule_matches :
    (pattern name : Bytes) (o : Option Bytes)
    → strip_suffix (codes ".*") pattern ≡ o
    → Covers pattern name
    → rule_matches pattern name o ≡ true
Covers-rule_matches pattern name o e (root p) =
    rw (wildcard_forced pattern name o e p) (rw (str_eq_refl name))
Covers-rule_matches pattern name o e (below prefix rest p n) =
    rw (wildcard_forced pattern prefix o e p) (below-rule_matches pattern name prefix rest n)
Covers-rule_matches pattern name none e (exact no_wildcard p) = (str_eq_iff pattern name).1 p
Covers-rule_matches pattern name (some prefix) e (exact no_wildcard p) =
    absurd (no_wildcard prefix (strip_suffix-eq-some (codes ".*") pattern prefix e))

-- A rule matches exactly the names that its pattern covers.
pub matches_iff :
    (rule : RouteRule) (name : Bytes) → (matches rule name ≡ true) ↔ Covers rule.destination name
unfolding matches
matches_iff rule name = (
  rule_matches-Covers rule.destination name (strip_suffix (codes ".*") rule.destination) refl,
  Covers-rule_matches rule.destination name (strip_suffix (codes ".*") rule.destination) refl,
)

any_rule-SomeCovers :
    (rules : List RouteRule) (name : Bytes) → any_rule rules name ≡ true → SomeCovers name rules
unfolding any_rule
any_rule-SomeCovers [] name h = cc
any_rule-SomeCovers (rule ∷ rules) name h = elim (Bool-cases (matches rule name)) [
  | inl here ↦ first ((matches_iff rule name).0 here)
  | inr not_here ↦ later (any_rule-SomeCovers rules name (rw not_here at h))
]

SomeCovers-any_rule :
    (rules : List RouteRule) (name : Bytes) → SomeCovers name rules → any_rule rules name ≡ true
unfolding any_rule
SomeCovers-any_rule [] name s = elim s [ ]
SomeCovers-any_rule (rule ∷ rules) name (first c) = rw ((matches_iff rule name).1 c)
SomeCovers-any_rule (rule ∷ rules) name (later s) = ground (arith, SomeCovers-any_rule rules name s)

-- A name goes to the host bus exactly if the pattern of some host route covers it: a pattern "p.*"
-- covers p and every "p.rest", and a pattern that does not end in ".*" covers itself alone.
pub should_route_to_host_iff :
    (config : Config) (name : Bytes)
    → (should_route_to_host config name ≡ true) ↔ SomeCovers name config.host_routes
unfolding should_route_to_host
should_route_to_host_iff config name =
    (any_rule-SomeCovers config.host_routes name, SomeCovers-any_rule config.host_routes name)
