-- ===== src/Samples/Written.antt =====
-- The theorems about where messages are routed and what a session writes, each at a concrete input.
use dbus_router.Message.{Message, is_text}
use dbus_router.Prelude.{
  ◌≡◌, refl, false, some, [], codes, ok, str_eq, strip_prefix, strip_suffix, starts_with,
}
use dbus_router.Samples.{
  sample_config, sample_glob, sample_world, all_writes, sample_message, sample_header,
}
use dbus_router.Bus.{Bus}
use dbus_router.Config.Matching.{should_route_to_host_iff}
use dbus_router.Config.{should_route_to_host, any_rule, matches}
use dbus_router.Daemon.Routes.{single}
use dbus_router.FakeName.Shown.{get_bus-IsShown}
use dbus_router.FakeName.{get_bus_from_fake_name}
use dbus_router.Routing.Decisions.{ShownFor, Covered, Goes, is_for_daemon, route_request-Goes}
use dbus_router.Routing.{is_hostpass_client, route_request}
use dbus_router.Session.Adds.{Added}
use dbus_router.Session.Client.OnlyBuses.{AnyBus, handle_client_message-Adds}
use dbus_router.Session.Targets.{ForBus}
use dbus_router.Session.Client.{handle_client_message}

-- a call to a name that no route covers
abbrev pub to_other : Message
to_other =
    sample_message (record sample_header { destination = some (codes "org.b") }) 6 (codes "org.b")
      []

pub other_not-ShownFor : ¬ ShownFor (some (codes "org.b")) Bus.host
unfolding get_bus_from_fake_name strip_prefix
other_not-ShownFor s = cc (get_bus-IsShown s)

pub other_not-Covered : ¬ Covered sample_config (some (codes "org.b"))
unfolding should_route_to_host any_rule matches strip_prefix strip_suffix starts_with str_eq
other_not-Covered c = cc ((should_route_to_host_iff sample_config (codes "org.b")).1 c)

pub not_for_daemon : is_for_daemon to_other ≡ false
unfolding is_text str_eq
not_for_daemon = refl

route_request-Goes_example :
    (bus : Bus) × (route_request sample_glob sample_config to_other (some (codes "/x"))
      ≡ ok (single bus))
    × Goes
        (is_hostpass_client sample_glob sample_config (some (codes "/x")))
        sample_config
        (some (codes "org.b"))
        bus
route_request-Goes_example =
    route_request-Goes sample_glob sample_config to_other (some (codes "/x")) not_for_daemon

handle_client_message-Adds_example :
    Added
      (ForBus AnyBus)
      sample_world
      (handle_client_message all_writes sample_glob to_other sample_world).1
handle_client_message-Adds_example =
    handle_client_message-Adds all_writes sample_glob to_other sample_world
