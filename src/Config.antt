-- ===== src/Config.antt =====
-- src/config.rs: the routing rules.
pub mod Matching
pub mod Load
use dbus_router.Prelude.{
  Bool, true, false, ◌||◌, Option, none, some, List, [], ◌∷◌, if◌then◌else◌, Bytes, codes, str_eq,
  strip_prefix, strip_suffix, starts_with,
}
use dbus_router.Text.Utf8.{from_utf8_lossy}

pub record RouteRule : Type 0 where
  pub destination : Bytes

pub record HostPass : Type 0 where
  pub process : Bytes

pub record Config : Type 0 where
  pub host_routes : List RouteRule
  pub hostpass : List HostPass

-- The package `glob`: `Pattern::new`, and for a pattern that is accepted its `matches`.
abbrev pub Glob : Type 0
Glob = Bytes → Option (Bytes → Bool)

-- `rest.starts_with('.')` under `if let Some(rest)`
abbrev dot_follows : Option Bytes → Bool
dot_follows none = false
dot_follows (some rest) = starts_with (codes ".") rest

abbrev rule_matches : Bytes → Bytes → Option Bytes → Bool
rule_matches pattern destination (some prefix) =
    if str_eq destination prefix then true else dot_follows (strip_prefix prefix destination)
rule_matches pattern destination none = str_eq pattern destination

unfoldable pub matches : RouteRule → Bytes → Bool
matches rule destination =
    rule_matches rule.destination destination (strip_suffix (codes ".*") rule.destination)

unfoldable pub any_rule : List RouteRule → Bytes → Bool
any_rule [] destination = false
any_rule (rule ∷ rules) destination = matches rule destination || any_rule rules destination

unfoldable pub should_route_to_host : Config → Bytes → Bool
should_route_to_host config destination = any_rule config.host_routes destination

abbrev pattern_matches : Option (Bytes → Bool) → Bytes → Bool
pattern_matches none exe = false
pattern_matches (some pattern) exe = pattern exe

module _ (glob : Glob) where
  any_hostpass : List HostPass → Bytes → Bool
  any_hostpass [] exe = false
  any_hostpass (h ∷ hs) exe =
      pattern_matches (glob (from_utf8_lossy h.process)) exe || any_hostpass hs exe

  unfoldable pub has_hostpass : Config → Bytes → Bool
  unfolding any_hostpass
  has_hostpass config exe_path = any_hostpass config.hostpass (from_utf8_lossy exe_path)
