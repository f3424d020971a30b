-- ===== src/Session/Client/Isolation.antt =====
-- A sandboxed client reaches the host bus only where a name or a route lets it.
use dbus_router.Bus.{Bus}
use dbus_router.Config.{Glob, Config}
use dbus_router.Message.{Message}
use dbus_router.Prelude.{◌≡◌, refl, ap, ◌∙◌, Bool, false, Option, Bytes, ok}
use dbus_router.Routing.Decisions.{
  ShownFor, Covered, Goes, by_hostpass, by_name, by_route, by_default, is_for_daemon,
  route_request-Goes,
}
use dbus_router.Routing.{is_hostpass_client}
use dbus_router.Session.Adds.{Added}
use dbus_router.Session.Client.OnlyBuses.{handle_client_message-single}
use dbus_router.Session.Client.{is_reply, forward_reply_to_caller, handle_client_message}
use dbus_router.Session.State.{World, Writes}
use dbus_router.Session.Targets.{ForBus}
use dbus_router.Daemon.Routes.{single}

only_sandbox :
    {hostpass : Bool} {config : Config} {dest : Option Bytes} {bus : Bus}
    → Goes hostpass config dest bus
    → hostpass ≡ false
    → ¬ ShownFor dest Bus.host
    → ¬ Covered config dest
    → bus ≡ Bus.sandbox
only_sandbox (by_hostpass pass b) no_pass not_shown not_covered = cc
only_sandbox {bus = Bus.host} (by_name fenced s) no_pass not_shown not_covered =
    absurd (not_shown s)
only_sandbox {bus = Bus.sandbox} (by_name fenced s) no_pass not_shown not_covered = refl
only_sandbox (by_route fenced h s c b) no_pass not_shown not_covered = absurd (not_covered c)
only_sandbox (by_default fenced h s c b) no_pass not_shown not_covered = b

-- A client without a hostpass sends a message that is no reply, is not for the bus daemon, and whose
-- destination is neither the fake name of a host peer nor covered by a host route. Whatever its
-- handling writes goes to the sandbox bus, whether or not the handling fails.
pub handle_client_message-sandboxed :
    (glob : Glob) (writes : Writes) (msg : Message) (w : World)
    → is_reply msg.header.msg_type ≡ false
    → is_for_daemon msg ≡ false
    → is_hostpass_client glob w.config w.client_exe_path ≡ false
    → ¬ ShownFor msg.header.destination Bus.host
    → ¬ Covered w.config msg.header.destination
    → Added (ForBus (λ bus. Bus.sandbox ≡ bus)) w (handle_client_message writes glob msg w).1
handle_client_message-sandboxed glob writes msg w no_reply other no_pass not_shown not_covered =
    let (bus, routed, goes) = route_request-Goes glob w.config msg w.client_exe_path other in
    handle_client_message-single writes glob msg w Bus.sandbox
      (unfold forward_reply_to_caller in rw no_reply refl)
      (routed ∙ ap (λ (b : Bus). ok (single b)) (only_sandbox goes no_pass not_shown not_covered))
