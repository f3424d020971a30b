-- ===== src/Routing/DaemonCalls.antt =====
-- Where a message goes that is for the bus daemon.
use dbus_router.Config.{Glob, Config}
use dbus_router.Daemon.Routes.Calls.{route_dbus_method-MethodGoes}
use dbus_router.Daemon.Routes.Goes.{MethodGoes}
use dbus_router.Daemon.Routes.{RouteDecision, text_or_empty, route_dbus_method}
use dbus_router.FakeName.{get_bus_from_fake_name}
use dbus_router.Message.{Message, dbus_name, is_text, extract_name_from_body}
use dbus_router.Prelude.{
  ◌≡◌, refl, ap, Bool, true, false, Option, none, some, Bytes, ok, str_eq_iff, strip_prefix, ◌∙◌,
  ◌&&◌, arith,
}
use dbus_router.Routing.Decisions.{is_for_daemon}
use dbus_router.Routing.{
  is_hostpass_client, fake_bus, route_named, route_unless_fake, route_request,
}

dbus_name-no_fake : get_bus_from_fake_name dbus_name ≡ none
unfolding get_bus_from_fake_name strip_prefix
dbus_name-no_fake = refl

fake_bus-dbus_name : (dest : Option Bytes) → is_text dest dbus_name ≡ true → fake_bus dest ≡ none
unfolding is_text
fake_bus-dbus_name none h = cc
fake_bus-dbus_name (some dest) h =
    ap get_bus_from_fake_name ((str_eq_iff dest dbus_name).0 h) ∙ dbus_name-no_fake

left_true : (a b : Bool) → (a && b) ≡ true → a ≡ true
left_true a b h = ground arith

-- The call is routed by its method.
pub route_request-route_dbus_method :
    (glob : Glob) (config : Config) (msg : Message) (exe : Option Bytes)
    → is_hostpass_client glob config exe ≡ false
    → is_for_daemon msg ≡ true
    → route_request glob config msg exe ≡ route_dbus_method config msg
unfolding route_request route_unless_fake route_named
route_request-route_dbus_method glob config msg exe no_pass daemon =
    rw no_pass
      (rw (fake_bus-dbus_name msg.header.destination (left_true _ _ daemon)) (rw daemon refl))

module _ (glob : Glob) (config : Config) (msg : Message) (exe text : Option Bytes) where
  -- A message to the bus daemon, from a client without a hostpass, whose body can be looked at
  -- without a panic is routed without an error: a method without a row in the table goes to the sandbox bus, and one with
  -- a row as its row says. The lists of names come from both buses. A match rule goes to the bus
  -- that its sender is a fake name of; else to the host bus if a host route covers its sender or
  -- the first three parts of its interface; and else to both buses; a body without a readable
  -- rule goes to the sandbox bus. A call about a name goes to the bus that the name is a fake name
  -- of, where the method takes such names; else to the host bus if the method is one that looks at
  -- the host routes and one of them covers the name; and else to the sandbox bus.
  pub route_request-MethodGoes :
      is_hostpass_client glob config exe ≡ false
      → is_for_daemon msg ≡ true
      → extract_name_from_body msg ≡ ok text
      → (goal : RouteDecision) × (route_request glob config msg exe ≡ ok goal)
        × MethodGoes config (text_or_empty msg.header.member) text goal
  route_request-MethodGoes no_pass daemon reads =
      let (goal, by, goes) = route_dbus_method-MethodGoes config msg text reads in
      (goal, route_request-route_dbus_method glob config msg exe no_pass daemon ∙ by, goes)
