-- ===== src/Session/Startup/Isolation.antt =====
-- A session from its first byte: `run` of src/session.rs, as far as the host bus is concerned.
use dbus_router.Auth.Passthrough.{Phase, Event, auth_passthrough}
use dbus_router.Config.{Glob}
use dbus_router.Prelude.{ℕ, ◌≡◌, refl, false, List, All, ok, err, panic}
use dbus_router.Routing.{is_hostpass_client}
use dbus_router.Session.Adds.{Added, Added-none}
use dbus_router.Session.Run.Isolation.{NotForHost, IsSandboxed, forward_loop-sandboxed}
use dbus_router.Session.Run.Written.{FromClient}
use dbus_router.Session.Run.{Read}
use dbus_router.Session.Startup.{authenticated, passed, run}
use dbus_router.Session.State.{Peer, World, Writes}
use dbus_router.Socket.Stream.{Stream}
use dbus_router.Socket.{Polled, pending, ready}
use dbus_router.Zvariant.{Zvariant}

module _ (z : Zvariant) (glob : Glob) (writes : Writes) (reads : List (Peer × Read)) (w : World)
    (no_pass : is_hostpass_client glob w.config w.client_exe_path ≡ false)
    (sandboxed : All (FromClient (IsSandboxed w.session)) reads) where
  authenticated-sandboxed :
      (host : Polled (Unit {0})) → Added NotForHost w (authenticated z glob host reads writes w).1
  unfolding authenticated
  authenticated-sandboxed pending = Added-none w w refl (refl, refl)
  authenticated-sandboxed (ready panic) = Added-none w w refl (refl, refl)
  authenticated-sandboxed (ready (err why)) = Added-none w w refl (refl, refl)
  authenticated-sandboxed (ready (ok _)) =
      forward_loop-sandboxed z glob writes reads w no_pass sandboxed

  passed-sandboxed :
      (phase : Phase) (host : Polled (Unit {0}))
      → Added NotForHost w (passed z glob phase host reads writes w).1
  unfolding passed
  passed-sandboxed Phase.talking host = Added-none w w refl (refl, refl)
  passed-sandboxed (Phase.failed why) host = Added-none w w refl (refl, refl)
  passed-sandboxed Phase.finished host = authenticated-sandboxed host

  -- `run` as a whole adds no message to the host bus's either, whatever the two handshakes come to.
  pub run-sandboxed :
      (auth_writes : Writes) (events : List Event) (host_writes : Writes) (uid : ℕ)
      (host_stream : Stream)
      → Added NotForHost w
          (run z glob auth_writes events host_writes uid host_stream writes reads w).1
  unfolding run
  run-sandboxed auth_writes events host_writes uid host_stream =
      passed-sandboxed (auth_passthrough auth_writes events).phase _
