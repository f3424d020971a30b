-- ===== src/Routing.antt =====
-- src/routing.rs: which bus a message of the client goes to.
pub mod Decisions
pub mod DaemonCalls
use dbus_router.Bus.{Bus}
use dbus_router.Config.{Glob, Config, has_hostpass, should_route_to_host}
use dbus_router.Daemon.Routes.{RouteDecision, single, route_dbus_method}
use dbus_router.FakeName.{get_bus_from_fake_name}
use dbus_router.Message.{Message, dbus_name, is_text}
use dbus_router.Prelude.{Bool, false, ◌&&◌, Option, none, some, if◌then◌else◌, Bytes, Result, ok}

route_by_destination : Config → Option Bytes → RouteDecision
route_by_destination config none = single Bus.sandbox
route_by_destination config (some dest) =
    if should_route_to_host config dest then single Bus.host else single Bus.sandbox

-- behind the test for a fake unique name
route_named : Config → Message → Result RouteDecision
unfolding route_by_destination
route_named config msg =
    if is_text msg.header.destination dbus_name && is_text msg.header.interface dbus_name
    then route_dbus_method config msg
    else ok (route_by_destination config msg.header.destination)

abbrev fake_bus : Option Bytes → Option Bus
fake_bus none = none
fake_bus (some dest) = get_bus_from_fake_name dest

module _ (glob : Glob) where
  -- `client_exe` is there and its executable has a hostpass.
  unfoldable pub is_hostpass_client : Config → Option Bytes → Bool
  is_hostpass_client config none = false
  is_hostpass_client config (some exe) = has_hostpass glob config exe

  route_unless_fake : Config → Message → Option Bus → Result RouteDecision
  unfolding route_named
  route_unless_fake config msg (some bus) = ok (single bus)
  route_unless_fake config msg none = route_named config msg

  unfoldable pub route_request : Config → Message → Option Bytes → Result RouteDecision
  unfolding route_unless_fake is_hostpass_client
  route_request config msg client_exe =
      if is_hostpass_client config client_exe
      then ok (single Bus.host)
      else route_unless_fake config msg (fake_bus msg.header.destination)
