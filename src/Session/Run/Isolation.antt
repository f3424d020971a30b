-- ===== src/Session/Run/Isolation.antt =====
-- What a whole session of a sandboxed client writes to the host bus.
use dbus_router.Bus.{Bus}
use dbus_router.Config.{Glob}
use dbus_router.Message.{Message}
use dbus_router.Prelude.{◌≡◌, ◌≢◌, refl, true, false, List, All}
use dbus_router.Routing.Decisions.{ShownFor, Covered, is_for_daemon}
use dbus_router.Routing.{is_hostpass_client}
use dbus_router.Session.Adds.{Added, SameClient}
use dbus_router.Session.Client.Isolation.{handle_client_message-sandboxed}
use dbus_router.Session.Client.{is_reply, handle_client_message}
use dbus_router.Session.Run.Written.{FromClient, rounds-Added, Added-weaken}
use dbus_router.Session.Run.{Read, waiting, forward_loop}
use dbus_router.Session.State.{Session, Peer, upstream, Sent, World, Writes}
use dbus_router.Session.Targets.{ForClient, ForBus}
use dbus_router.Zvariant.{Zvariant}

abbrev pub NotForHost : Sent → Type 0
NotForHost s = s.peer ≢ upstream Bus.host

-- A message that has no business on the host bus: no reply, not for the bus daemon, and for a name that is
-- neither the fake name of a host peer nor covered by a host route.
pub record IsSandboxed (session : Session) (msg : Message) : Type 0 where
  pub no_reply : is_reply msg.header.msg_type ≡ false
  pub not_daemon : is_for_daemon msg ≡ false
  pub not_shown : ¬ ShownFor msg.header.destination Bus.host
  pub not_covered : ¬ Covered session.config msg.header.destination

to_sandbox : (s : Sent) → ForBus (λ bus. Bus.sandbox ≡ bus) s → NotForHost s
to_sandbox s f h = let allowed = f.bus_allowed in let peer = f.to_bus in cc

to_client : (s : Sent) → ForClient s → NotForHost s
to_client s f h = let peer = f.to_client in cc

-- A session of a client without a hostpass, in which every message of the client is no reply, is not for
-- the bus daemon, and has a destination that is neither the fake name of a host peer nor covered by a
-- host route. However its messages and those of the buses interleave, and however the session ends,
-- nothing is written to the host bus.
pub forward_loop-sandboxed :
    (z : Zvariant) (glob : Glob) (writes : Writes) (reads : List (Peer × Read)) (w : World)
    → is_hostpass_client glob w.config w.client_exe_path ≡ false
    → All (FromClient (IsSandboxed w.session)) reads
    → Added NotForHost w (forward_loop z glob writes reads w).1
unfolding forward_loop
forward_loop-sandboxed z glob writes reads w no_pass sandboxed =
    rounds-Added z glob writes (is_hostpass_client glob w.config w.client_exe_path) NotForHost
      (IsSandboxed w.session) w.session to_client message_kept (waiting true) reads w (refl, refl)
      sandboxed
  where
    message_kept :
        (msg : Message) (v : World)
        → SameClient w.session v.session
        → IsSandboxed w.session msg
        → Added NotForHost v (handle_client_message writes glob msg v).1
    message_kept msg v (config, exe) s = Added-weaken to_sandbox v _ (
        handle_client_message-sandboxed glob writes msg v s.no_reply s.not_daemon
          (rw (config, exe) no_pass) s.not_shown (rw config s.not_covered))
