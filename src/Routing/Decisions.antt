-- ===== src/Routing/Decisions.antt =====
-- Where a message that is not for the bus daemon goes, described without the code's order of tests.
use dbus_router.Bus.{Bus}
use dbus_router.Config.{Glob, Config, should_route_to_host}
use dbus_router.Config.Matching.{SomeCovers, should_route_to_host_iff}
use dbus_router.Daemon.Routes.{single}
use dbus_router.FakeName.Shown.{IsShown, IsShown-get_bus, get_bus-IsShown}
use dbus_router.Message.{Message, dbus_name, is_text}
use dbus_router.Prelude.{
  ◌≡◌, refl, ap, Bool, true, false, Option, none, some, Bytes, Bool-cases, inl, inr, ok, ◌&&◌,
}
use dbus_router.Routing.{
  is_hostpass_client, fake_bus, route_by_destination, route_named, route_unless_fake, route_request,
}

-- The message's destination is a name that is read as one of `bus`'s.
abbrev pub ShownFor : Option Bytes → Bus → Type 0
ShownFor none bus = ⊥
ShownFor (some dest) bus = IsShown dest bus

-- The message's destination is covered by a host route.
abbrev pub Covered : Config → Option Bytes → Type 0
Covered config none = ⊥
Covered config (some dest) = SomeCovers dest config.host_routes

-- A message that is not for the bus daemon goes to `bus`.
pub data Goes (hostpass : Bool) (config : Config) (dest : Option Bytes) (bus : Bus) : Type 0 where
  -- all traffic of a hostpass client goes to the host bus
  by_hostpass : hostpass ≡ true → bus ≡ Bus.host → Goes hostpass config dest bus
  -- a fake name goes to its bus
  by_name : hostpass ≡ false → ShownFor dest bus → Goes hostpass config dest bus
  -- a covered name goes to the host bus
  by_route :
      hostpass ≡ false
      → ¬ ShownFor dest Bus.host
      → ¬ ShownFor dest Bus.sandbox
      → Covered config dest
      → bus ≡ Bus.host
      → Goes hostpass config dest bus
  -- all else stays in the sandbox
  by_default :
      hostpass ≡ false
      → ¬ ShownFor dest Bus.host
      → ¬ ShownFor dest Bus.sandbox
      → ¬ Covered config dest
      → bus ≡ Bus.sandbox
      → Goes hostpass config dest bus

abbrev pub is_for_daemon : Message → Bool
is_for_daemon msg =
    is_text msg.header.destination dbus_name && is_text msg.header.interface dbus_name

route_by_destination-Goes :
    (config : Config) (dest : Option Bytes)
    → ¬ ShownFor dest Bus.host
    → ¬ ShownFor dest Bus.sandbox
    → (bus : Bus) × (route_by_destination config dest ≡ single bus) × Goes false config dest bus
unfolding route_by_destination
route_by_destination-Goes config none h s = (Bus.sandbox, refl, by_default refl h s (λ c. c) refl)
route_by_destination-Goes config (some dest) h s =
    elim (Bool-cases (should_route_to_host config dest)) [
      | inl covered ↦ (
        Bus.host,
        rw covered,
        by_route refl h s ((should_route_to_host_iff config dest).0 covered) refl,
      )
      | inr other ↦ (
        Bus.sandbox,
        rw other,
        by_default refl h s (λ c. cc ((should_route_to_host_iff config dest).1 c)) refl,
      )
    ]

not_shown : (dest : Option Bytes) (bus : Bus) → fake_bus dest ≡ none → ¬ ShownFor dest bus
not_shown none bus e s = s
not_shown (some dest) bus e s = cc (get_bus-IsShown s)

shown : (dest : Option Bytes) (bus : Bus) → fake_bus dest ≡ some bus → ShownFor dest bus
shown none bus e = cc
shown (some dest) bus e = IsShown-get_bus dest bus e

named-Goes :
    (config : Config) (msg : Message) (dest : Option Bytes)
    → fake_bus dest ≡ none
    → (bus : Bus) × (route_by_destination config dest ≡ single bus) × Goes false config dest bus
named-Goes config msg dest e =
    route_by_destination-Goes config dest (not_shown dest Bus.host e) (not_shown dest Bus.sandbox e)

route_unless_fake-Goes :
    (glob : Glob) (config : Config) (msg : Message) (o : Option Bus)
    → fake_bus msg.header.destination ≡ o
    → is_for_daemon msg ≡ false
    → (bus : Bus) × (route_unless_fake glob config msg o ≡ ok (single bus))
      × Goes false config msg.header.destination bus
unfolding route_unless_fake route_named
route_unless_fake-Goes glob config msg (some bus) e d =
    (bus, refl, by_name refl (shown msg.header.destination bus e))
route_unless_fake-Goes glob config msg none e d =
    let (bus, by, goes) = named-Goes config msg msg.header.destination e in
    (bus, rw d (ap ok by), goes)

-- A message whose destination and interface are not both org.freedesktop.DBus is routed without an
-- error to one bus: to the host bus if the client's executable has a hostpass; else to the bus that
-- its destination is a fake name of; else to the host bus if a host route covers the destination;
-- and else to the sandbox bus.
pub route_request-Goes :
    (glob : Glob) (config : Config) (msg : Message) (exe : Option Bytes)
    → is_for_daemon msg ≡ false
    → (bus : Bus) × (route_request glob config msg exe ≡ ok (single bus))
      × Goes (is_hostpass_client glob config exe) config msg.header.destination bus
unfolding route_request
route_request-Goes glob config msg exe d = elim (Bool-cases (is_hostpass_client glob config exe)) [
  | inl pass ↦ (Bus.host, rw pass, by_hostpass pass refl)
  | inr no_pass ↦
      let (bus, by, goes) =
        route_unless_fake-Goes glob config msg (fake_bus msg.header.destination) refl d in
      (bus, rw no_pass by, rw no_pass goes)
]
