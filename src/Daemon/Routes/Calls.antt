-- ===== src/Daemon/Routes/Calls.antt =====
-- `route_dbus_method` does what `Goes` describes.
use dbus_router.Bus.{Bus}
use dbus_router.Config.{Config, should_route_to_host}
use dbus_router.Config.Matching.{should_route_to_host_iff}
use dbus_router.Daemon.Routes.{
  RouteDecision, single, merge, DbusRouteKind, merge_both, by_match_rule, by_name, DbusMethodSpec,
  dbus_method_specs, find_spec, find_method_spec, extract_service_from_interface, route_by_service,
  route_by_interface, route_by_sender, route_by_info, route_by_rule, route_by_well_known,
  route_by_fake, route_by_name, route_by_kind, route_by_spec, text_or_empty, route_dbus_method,
}
use dbus_router.FakeName.{get_bus_from_fake_name}
use dbus_router.FakeName.Shown.{IsShown-get_bus, get_bus-IsShown}
use dbus_router.MatchRule.{parse_match_rule}
use dbus_router.Message.{Message, extract_name_from_body, extract_string_from_body}
use dbus_router.Prelude.{
  ◌≡◌, refl, ap, ◌∙◌, Bool, true, false, Option, none, some, List, [], ◌∷◌, Bytes, Bool-cases, inl,
  inr, ok, str_eq, str_eq_iff, str_eq_refl,
}
use dbus_router.Routing.Decisions.{ShownFor, Covered}
use dbus_router.Daemon.Routes.Goes.{
  NotShown, RuleGoes, by_fake_sender, by_covered, to_both, NameGoes, by_fake_name, by_host_route,
  by_default, service_of, RuleTextGoes, KindGoes, HasRow, first, later, MethodGoes, listed,
  unlisted,
}

not_fake : (name : Bytes) → get_bus_from_fake_name name ≡ none → NotShown (some name)
not_fake name e bus s = cc (get_bus-IsShown s)

should_route_to_host-Covered :
    (config : Config) (name : Bytes)
    → should_route_to_host config name ≡ true
    → Covered config (some name)
should_route_to_host-Covered config name h = (should_route_to_host_iff config name).0 h

uncovered :
    (config : Config) (name : Bytes)
    → should_route_to_host config name ≡ false
    → ¬ Covered config (some name)
uncovered config name h c = cc ((should_route_to_host_iff config name).1 c)

find_spec-HasRow :
    (specs : List DbusMethodSpec) (member : Bytes) (s : DbusMethodSpec)
    → find_spec specs member ≡ some s
    → HasRow member s.route specs
unfolding find_spec
find_spec-HasRow [] member s e = cc
find_spec-HasRow (x ∷ specs) member s e = elim (Bool-cases (str_eq x.member member)) [
  | inl h ↦
      let same : some x ≡ some s = (rw h at e) in first ((str_eq_iff x.member member).0 h) (cc same)
  | inr h ↦ later (find_spec-HasRow specs member s (rw h at e))
]

find_spec-no_row :
    (specs : List DbusMethodSpec) (member : Bytes) (route : DbusRouteKind)
    → find_spec specs member ≡ none
    → ¬ HasRow member route specs
unfolding find_spec
find_spec-no_row [] member route e r = elim r [ ]
find_spec-no_row (x ∷ specs) member route e (first same r) =
    cc (str_eq_refl member, (rw (ap (λ (m : Bytes). str_eq m member) same) at e))
find_spec-no_row (x ∷ specs) member route e (later r) = elim (Bool-cases (str_eq x.member member)) [
  | inl h ↦ cc ((rw h at e))
  | inr h ↦ find_spec-no_row specs member route (rw h at e) r
]

module _ (config : Config) where
  route_by_service-RuleGoes :
      (sender service : Option Bytes)
      → NotShown sender
      → ¬ Covered config sender
      → RuleGoes config sender service (route_by_service config service)
  unfolding route_by_service
  route_by_service-RuleGoes sender none n c = to_both n c (λ x. x) refl
  route_by_service-RuleGoes sender (some service) n c =
      elim (Bool-cases (should_route_to_host config service)) [
        | inl h ↦ by_covered n (inr (should_route_to_host-Covered config service h)) (rw h)
        | inr h ↦ to_both n c (uncovered config service h) (rw h)
      ]

  route_by_interface-RuleGoes :
      (sender interface : Option Bytes)
      → NotShown sender
      → ¬ Covered config sender
      → RuleGoes config sender (service_of interface) (route_by_interface config interface)
  unfolding route_by_interface
  route_by_interface-RuleGoes sender none n c = to_both n c (λ x. x) refl
  route_by_interface-RuleGoes sender (some interface) n c =
      route_by_service-RuleGoes sender (extract_service_from_interface interface) n c

  route_by_sender-RuleGoes :
      (sender : Bytes) (interface : Option Bytes) (o : Option Bus)
      → get_bus_from_fake_name sender ≡ o
      → RuleGoes config
          (some sender)
          (service_of interface)
          (route_by_sender config sender interface o)
  unfolding route_by_sender
  route_by_sender-RuleGoes sender interface (some bus) e =
      by_fake_sender bus (IsShown-get_bus sender bus e) refl
  route_by_sender-RuleGoes sender interface none e =
      elim (Bool-cases (should_route_to_host config sender)) [
        | inl h ↦
            by_covered (not_fake sender e) (inl (should_route_to_host-Covered config sender h))
              (rw h)
        | inr h ↦ rw h (
            route_by_interface-RuleGoes (some sender) interface (not_fake sender e)
              (uncovered config sender h))
      ]

  route_by_info-RuleGoes :
      (sender interface : Option Bytes)
      → RuleGoes config sender (service_of interface) (route_by_info config sender interface)
  unfolding route_by_info
  route_by_info-RuleGoes none interface =
      route_by_interface-RuleGoes none interface (λ bus s. s) (λ c. c)
  route_by_info-RuleGoes (some sender) interface =
      route_by_sender-RuleGoes sender interface (get_bus_from_fake_name sender) refl

  route_by_rule-RuleTextGoes :
      (rule : Option Bytes) → RuleTextGoes config rule (route_by_rule config rule)
  unfolding route_by_rule
  route_by_rule-RuleTextGoes none = refl
  route_by_rule-RuleTextGoes (some rule) =
      route_by_info-RuleGoes (parse_match_rule rule).sender (parse_match_rule rule).interface

  route_by_well_known-NameGoes :
      (check_host_routes allow_fake_unique : Bool) (name : Option Bytes) (n : Bytes)
      → name ≡ some n
      → ¬ ((allow_fake_unique ≡ true) × (bus : Bus) × ShownFor name bus)
      → NameGoes config check_host_routes allow_fake_unique name
          (route_by_well_known config check_host_routes n)
  unfolding route_by_well_known
  route_by_well_known-NameGoes false allow_fake_unique name n e f =
      by_default f (λ c. cc (c.0)) refl
  route_by_well_known-NameGoes true allow_fake_unique none n e f = cc
  route_by_well_known-NameGoes true allow_fake_unique (some name) n e f =
      elim (Bool-cases (should_route_to_host config n)) [
        | inl h ↦ by_host_route f refl (should_route_to_host-Covered config name (cc)) (rw h)
        | inr h ↦ by_default f (λ c. uncovered config name (cc) c.1) (rw h)
      ]

  route_by_fake-NameGoes :
      (check_host_routes : Bool) (name : Bytes) (o : Option Bus)
      → get_bus_from_fake_name name ≡ o
      → NameGoes config check_host_routes true
          (some name)
          (route_by_fake config check_host_routes name o)
  unfolding route_by_fake
  route_by_fake-NameGoes check_host_routes name (some bus) e =
      by_fake_name bus refl (IsShown-get_bus name bus e) refl
  route_by_fake-NameGoes check_host_routes name none e =
      route_by_well_known-NameGoes check_host_routes true (some name) name refl
        (λ (_, bus, s). not_fake name e bus s)

  route_by_name-NameGoes :
      (check_host_routes allow_fake_unique : Bool) (name : Option Bytes)
      → NameGoes config check_host_routes allow_fake_unique name
          (route_by_name config check_host_routes allow_fake_unique name)
  unfolding route_by_name
  route_by_name-NameGoes check_host_routes allow_fake_unique none =
      by_default (λ (_, bus, s). s) (λ (_, c). c) refl
  route_by_name-NameGoes check_host_routes true (some name) =
      route_by_fake-NameGoes check_host_routes name (get_bus_from_fake_name name) refl
  route_by_name-NameGoes check_host_routes false (some name) =
      route_by_well_known-NameGoes check_host_routes false (some name) name refl (λ c. cc (c.0))

  module _ (msg : Message) (text : Option Bytes)
      (reads : extract_name_from_body msg ≡ ok text) where
    route_by_kind-KindGoes :
        (route : DbusRouteKind)
        → (goal : RouteDecision) × (route_by_kind config msg route ≡ ok goal)
          × KindGoes config route text goal
    unfolding route_by_kind extract_string_from_body
    route_by_kind-KindGoes merge_both = (merge, refl, refl)
    route_by_kind-KindGoes by_match_rule =
        (route_by_rule config text, rw reads refl, route_by_rule-RuleTextGoes text)
    route_by_kind-KindGoes (by_name check_host_routes allow_fake_unique) = (
      route_by_name config check_host_routes allow_fake_unique text,
      rw reads refl,
      route_by_name-NameGoes check_host_routes allow_fake_unique text,
    )

    route_by_spec-MethodGoes :
        (member : Bytes) (o : Option DbusMethodSpec)
        → find_method_spec member ≡ o
        → (goal : RouteDecision) × (route_by_spec config msg o ≡ ok goal)
          × MethodGoes config member text goal
    unfolding route_by_spec find_method_spec
    route_by_spec-MethodGoes member none e = (
      single Bus.sandbox,
      refl,
      unlisted (λ route. find_spec-no_row dbus_method_specs member route e) refl,
    )
    route_by_spec-MethodGoes member (some s) e =
        let (goal, by, goes) = route_by_kind-KindGoes s.route in
        (goal, by, listed s.route (find_spec-HasRow dbus_method_specs member s e) goes)

    pub route_dbus_method-MethodGoes :
        (goal : RouteDecision) × (route_dbus_method config msg ≡ ok goal)
        × MethodGoes config (text_or_empty msg.header.member) text goal
    unfolding route_dbus_method
    route_dbus_method-MethodGoes =
        route_by_spec-MethodGoes (text_or_empty msg.header.member)
          (find_method_spec (text_or_empty msg.header.member)) refl

-- A method with a row is routed by it.
pub route_dbus_method-listed :
    (config : Config) (msg : Message) (method : Bytes) (s : DbusMethodSpec)
    → msg.header.member ≡ some method
    → find_method_spec method ≡ some s
    → route_dbus_method config msg ≡ route_by_kind config msg s.route
unfolding route_dbus_method route_by_spec
route_dbus_method-listed config msg method s named has_row =
    ap (λ (m : Option Bytes). route_by_spec config msg (find_method_spec (text_or_empty m))) named
    ∙ ap (route_by_spec config msg) has_row
