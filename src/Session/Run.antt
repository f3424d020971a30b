-- ===== src/Session/Run.antt =====
-- `forward_loop`: what the three connections deliver, handled one after the other.
pub mod Hostpass
pub mod Written
pub mod Bounds
pub mod Isolation
use dbus_router.Bus.{Bus}
use dbus_router.Config.{Glob}
use dbus_router.Message.{Message}
use dbus_router.Prelude.{
  Bool, true, false, ◌&&◌, not, List, [], ◌∷◌, if◌then◌else◌, Error, Result, ok, err, panic,
}
use dbus_router.Routing.{is_hostpass_client}
use dbus_router.Session.Client.{handle_client_message}
use dbus_router.Session.State.{Peer, client, upstream, World, Handler, Writes}
use dbus_router.Session.Upstream.{handle_upstream_message}
use dbus_router.Zvariant.{Zvariant}

-- What `read_message_from` gives on one connection.
pub data Read : Type 0 where
  message : Message → Read
  closed : Read
  failed : Error → Read

-- How the loop stands: it waits, with the flag `sandbox_active`; or `Ok(())` was returned, or a
-- handler's error; or the task panicked.
pub data Progress : Type 0 where
  waiting : Bool → Progress
  finished : Progress
  broken : Error → Progress
  crashed : Progress

abbrev after_handler : Bool → Result (Unit {0}) × World → Progress × World
after_handler active (ok _, w) = (waiting active, w)
after_handler active (err e, w) = (broken e, w)
after_handler active (panic, w) = (crashed, w)

-- A hostpass client outlives the sandbox bus.
abbrev sandbox_gone : Bool → Progress
sandbox_gone is_hostpass = if not is_hostpass then finished else waiting false

module _ (z : Zvariant) (glob : Glob) (writes : Writes) where
  -- One branch of `select!`. A sandbox connection that is no longer active is not read.
  select_branch : Bool → Bool → Peer → Read → World → Progress × World
  select_branch is_hostpass active client (message msg) w =
      after_handler active (handle_client_message writes glob msg w)
  select_branch is_hostpass active client _ w = (finished, w)
  select_branch is_hostpass active (upstream Bus.host) (message msg) w =
      after_handler active (handle_upstream_message z writes msg Bus.host w)
  select_branch is_hostpass active (upstream Bus.host) _ w = (finished, w)
  select_branch is_hostpass false (upstream Bus.sandbox) read w = (waiting false, w)
  select_branch is_hostpass true (upstream Bus.sandbox) (message msg) w =
      after_handler true (handle_upstream_message z writes msg Bus.sandbox w)
  select_branch is_hostpass true (upstream Bus.sandbox) _ w = (sandbox_gone is_hostpass, w)

  -- The rounds of the loop over what is delivered, in the order in which `select!` takes it.
  unfoldable pub rounds : Bool → Progress → List (Peer × Read) → World → Progress × World
  unfolding select_branch
  rounds is_hostpass (waiting active) ((peer, read) ∷ reads) w =
      let (p, w') = select_branch is_hostpass active peer read w in rounds is_hostpass p reads w'
  rounds is_hostpass p _ w = (p, w)

  unfoldable pub forward_loop : List (Peer × Read) → World → Progress × World
  unfolding rounds
  forward_loop reads w =
      rounds (is_hostpass_client glob w.config w.client_exe_path) (waiting true) reads w
