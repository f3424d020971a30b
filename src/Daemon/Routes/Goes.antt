-- ===== src/Daemon/Routes/Goes.antt =====
-- Where a call of the bus daemon goes, described without the code's order of tests.
use dbus_router.Bus.{Bus}
use dbus_router.Config.{Config}
use dbus_router.Daemon.Routes.{
  RouteDecision, single, both, merge, DbusRouteKind, merge_both, by_match_rule, by_name,
  DbusMethodSpec, dbus_method_specs, extract_service_from_interface,
}
use dbus_router.MatchRule.{parse_match_rule}
use dbus_router.Prelude.{◌≡◌, Bool, true, Option, none, some, List, ◌∷◌, Bytes, ◌⊎◌}
use dbus_router.Routing.Decisions.{ShownFor, Covered}

-- The text is a fake name of no bus.
abbrev pub NotShown : Option Bytes → Type 0
NotShown text = (bus : Bus) → ¬ ShownFor text bus

-- Where a match rule goes that asks for `sender` and for an interface of `service`.
pub data RuleGoes (config : Config) (sender service : Option Bytes) (goal : RouteDecision)
    : Type 0 where
  by_fake_sender :
      (bus : Bus) → ShownFor sender bus → goal ≡ single bus → RuleGoes config sender service goal
  by_covered :
      NotShown sender
      → Covered config sender ⊎ Covered config service
      → goal ≡ single Bus.host
      → RuleGoes config sender service goal
  to_both :
      NotShown sender
      → ¬ Covered config sender
      → ¬ Covered config service
      → goal ≡ both
      → RuleGoes config sender service goal

-- Where a call about a name goes, for the two flags of its method.
pub data NameGoes (config : Config) (check_host_routes allow_fake_unique : Bool)
    (name : Option Bytes) (goal : RouteDecision) : Type 0 where
  by_fake_name :
      (bus : Bus)
      → allow_fake_unique ≡ true
      → ShownFor name bus
      → goal ≡ single bus
      → NameGoes config check_host_routes allow_fake_unique name goal
  by_host_route :
      ¬ ((allow_fake_unique ≡ true) × (bus : Bus) × ShownFor name bus)
      → check_host_routes ≡ true
      → Covered config name
      → goal ≡ single Bus.host
      → NameGoes config check_host_routes allow_fake_unique name goal
  by_default :
      ¬ ((allow_fake_unique ≡ true) × (bus : Bus) × ShownFor name bus)
      → ¬ ((check_host_routes ≡ true) × Covered config name)
      → goal ≡ single Bus.sandbox
      → NameGoes config check_host_routes allow_fake_unique name goal

-- The service that an interface belongs to, if there is an interface with three parts.
abbrev pub service_of : Option Bytes → Option Bytes
service_of none = none
service_of (some interface) = extract_service_from_interface interface

-- A rule that cannot be read goes to the sandbox bus.
abbrev pub RuleTextGoes : Config → Option Bytes → RouteDecision → Type 0
RuleTextGoes config none goal = goal ≡ single Bus.sandbox
RuleTextGoes config (some rule) goal =
    let info = parse_match_rule rule in RuleGoes config info.sender (service_of info.interface) goal

abbrev pub KindGoes : Config → DbusRouteKind → Option Bytes → RouteDecision → Type 0
KindGoes config merge_both text goal = goal ≡ merge
KindGoes config by_match_rule text goal = RuleTextGoes config text goal
KindGoes config (by_name check_host_routes allow_fake_unique) text goal =
    NameGoes config check_host_routes allow_fake_unique text goal

-- Some row of the table has the method.
pub data HasRow (member : Bytes) (route : DbusRouteKind) : List DbusMethodSpec → Type 0 where
  first :
      {s : DbusMethodSpec} {specs : List DbusMethodSpec}
      → s.member ≡ member
      → s.route ≡ route
      → HasRow member route (s ∷ specs)
  later :
      {s : DbusMethodSpec} {specs : List DbusMethodSpec}
      → HasRow member route specs
      → HasRow member route (s ∷ specs)

-- Where a call of the method goes whose body starts with `text`.
pub data MethodGoes (config : Config) (member : Bytes) (text : Option Bytes) (goal : RouteDecision)
    : Type 0 where
  listed :
      (route : DbusRouteKind)
      → HasRow member route dbus_method_specs
      → KindGoes config route text goal
      → MethodGoes config member text goal
  unlisted :
      ((route : DbusRouteKind) → ¬ HasRow member route dbus_method_specs)
      → goal ≡ single Bus.sandbox
      → MethodGoes config member text goal
