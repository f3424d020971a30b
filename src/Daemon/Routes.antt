-- ===== src/Daemon/Routes.antt =====
-- The method tables and `route_dbus_method`, and `RouteDecision` of src/routing.rs.
pub mod Goes
pub mod Calls
use dbus_router.Bus.{Bus}
use dbus_router.Config.{Config, should_route_to_host}
use dbus_router.FakeName.{get_bus_from_fake_name}
use dbus_router.MatchRule.{parse_match_rule}
use dbus_router.Message.{Message, extract_name_from_body, extract_string_from_body}
use dbus_router.Prelude.{
  Bool, true, false, ◌&&◌, ◌||◌, Option, none, some, List, [], ◌∷◌, if◌then◌else◌, Bytes, codes,
  str_eq, Result, ok, ◌>>=◌,
}
use dbus_router.Text.{split, join}

pub data RouteDecision : Type 0 where
  single : Bus → RouteDecision
  -- AddMatch and RemoveMatch with no sender
  both : RouteDecision
  -- ListNames and ListActivatableNames
  merge : RouteDecision

unfoldable pub is_member_of : Bytes → List Bytes → Bool
is_member_of s [] = false
is_member_of s (x ∷ xs) = str_eq x s || is_member_of s xs

abbrev methods_need_response_rewrite : List Bytes
methods_need_response_rewrite = codes "Hello" ∷ codes "GetNameOwner" ∷ codes "ListQueuedOwners" ∷ []

abbrev pub methods_need_request_rewrite : List Bytes
methods_need_request_rewrite =
    codes "GetConnectionCredentials"
    ∷ codes "GetConnectionUnixUser"
    ∷ codes "GetConnectionUnixProcessID"
    ∷ codes "GetConnectionSELinuxSecurityContext"
    ∷ codes "GetAdtAuditSessionData"
    ∷ codes "NameHasOwner"
    ∷ codes "GetNameOwner"
    ∷ []

unfoldable pub needs_response_rewrite : Bytes → Bool
unfolding is_member_of
needs_response_rewrite member = is_member_of member methods_need_response_rewrite

unfoldable pub needs_request_rewrite : Bytes → Bool
unfolding is_member_of
needs_request_rewrite member = is_member_of member methods_need_request_rewrite

unfoldable pub signal_needs_rewrite : Bytes → Bool
unfolding is_member_of
signal_needs_rewrite member = is_member_of member (codes "NameOwnerChanged" ∷ [])

pub data DbusRouteKind : Type 0 where
  merge_both : DbusRouteKind
  by_match_rule : DbusRouteKind
  -- the flags are `check_host_routes` and `allow_fake_unique`
  by_name : Bool → Bool → DbusRouteKind

pub record DbusMethodSpec : Type 0 where
  pub member : Bytes
  pub route : DbusRouteKind

abbrev spec : Bytes → DbusRouteKind → DbusMethodSpec
spec member route = record { member = member; route = route }

abbrev pub dbus_method_specs : List DbusMethodSpec
dbus_method_specs =
    spec (codes "AddMatch") by_match_rule
    ∷ spec (codes "RemoveMatch") by_match_rule
    ∷ spec (codes "RequestName") (by_name true false)
    ∷ spec (codes "ReleaseName") (by_name true false)
    ∷ spec (codes "GetNameOwner") (by_name true true)
    ∷ spec (codes "NameHasOwner") (by_name true true)
    ∷ spec (codes "StartServiceByName") (by_name true true)
    ∷ spec (codes "GetConnectionCredentials") (by_name false true)
    ∷ spec (codes "GetConnectionUnixUser") (by_name false true)
    ∷ spec (codes "GetConnectionUnixProcessID") (by_name false true)
    ∷ spec (codes "GetConnectionSELinuxSecurityContext") (by_name false true)
    ∷ spec (codes "GetAdtAuditSessionData") (by_name false true)
    ∷ spec (codes "ListNames") merge_both
    ∷ spec (codes "ListActivatableNames") merge_both
    ∷ []

find_spec : List DbusMethodSpec → Bytes → Option DbusMethodSpec
find_spec [] member = none
find_spec (s ∷ specs) member = if str_eq s.member member then some s else find_spec specs member

unfoldable pub find_method_spec : Bytes → Option DbusMethodSpec
unfolding find_spec
find_method_spec member = find_spec dbus_method_specs member

-- `parts.len() >= 3`, and the first three joined
first_three : List Bytes → Option Bytes
first_three (a ∷ b ∷ c ∷ parts) = some (join b'.' (a ∷ b ∷ c ∷ []))
first_three _ = none

unfoldable pub extract_service_from_interface : Bytes → Option Bytes
unfolding first_three
extract_service_from_interface interface = first_three (split b'.' interface)

-- `unwrap_or("")`
abbrev pub text_or_empty : Option Bytes → Bytes
text_or_empty none = []
text_or_empty (some s) = s

module _ (config : Config) where
  -- `if let Some(service)` under `if let Some(ref interface)`
  route_by_service : Option Bytes → RouteDecision
  route_by_service none = both
  route_by_service (some service) =
      if should_route_to_host config service then single Bus.host else both

  route_by_interface : Option Bytes → RouteDecision
  route_by_interface none = both
  route_by_interface (some interface) = route_by_service (extract_service_from_interface interface)

  route_by_sender : Bytes → Option Bytes → Option Bus → RouteDecision
  route_by_sender sender interface (some bus) = single bus
  route_by_sender sender interface none =
      if should_route_to_host config sender then single Bus.host else route_by_interface interface

  route_by_info : Option Bytes → Option Bytes → RouteDecision
  route_by_info none interface = route_by_interface interface
  route_by_info (some sender) interface =
      route_by_sender sender interface (get_bus_from_fake_name sender)

  route_by_rule : Option Bytes → RouteDecision
  route_by_rule none = single Bus.sandbox
  route_by_rule (some rule) =
      let info = parse_match_rule rule in route_by_info info.sender info.interface

  route_by_well_known : Bool → Bytes → RouteDecision
  route_by_well_known check_host_routes name =
      if check_host_routes && should_route_to_host config name
      then single Bus.host
      else single Bus.sandbox

  route_by_fake : Bool → Bytes → Option Bus → RouteDecision
  route_by_fake check_host_routes name (some bus) = single bus
  route_by_fake check_host_routes name none = route_by_well_known check_host_routes name

  route_by_name : Bool → Bool → Option Bytes → RouteDecision
  route_by_name check_host_routes allow_fake_unique none = single Bus.sandbox
  route_by_name check_host_routes allow_fake_unique (some name) =
      if allow_fake_unique
      then route_by_fake check_host_routes name (get_bus_from_fake_name name)
      else route_by_well_known check_host_routes name

  unfoldable pub route_by_kind : Message → DbusRouteKind → Result RouteDecision
  unfolding route_by_name route_by_rule route_by_info route_by_sender route_by_interface
      route_by_service route_by_fake route_by_well_known
  route_by_kind msg merge_both = ok merge
  route_by_kind msg by_match_rule = do rule ← extract_string_from_body msg; ok (route_by_rule rule)
  route_by_kind msg (by_name check_host_routes allow_fake_unique) = do
    name ← extract_name_from_body msg
    ok (route_by_name check_host_routes allow_fake_unique name)

  route_by_spec : Message → Option DbusMethodSpec → Result RouteDecision
  route_by_spec msg none = ok (single Bus.sandbox)
  route_by_spec msg (some s) = route_by_kind msg s.route

  unfoldable pub route_dbus_method : Message → Result RouteDecision
  unfolding route_by_spec
  route_dbus_method msg = route_by_spec msg (find_method_spec (text_or_empty msg.header.member))
