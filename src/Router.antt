-- ===== src/Router.antt =====
-- src/router.rs: the socket that clients connect to, and one session for each of them. The sessions run
-- at the same time but share only the configuration, which nobody changes.
pub mod Isolation
use dbus_router.Address.Connect.{Kernel}
use dbus_router.Auth.Passthrough.{Event}
use dbus_router.Config.{Config, Glob}
use dbus_router.Prelude.{
  ℕ, Bool, ◌&&◌, not, Option, none, some, List, [], ◌∷◌, if◌then◌else◌, Bytes, Error, io, Result,
  ok, err, panic, ◌>>=◌,
}
use dbus_router.Session.Open.{PeerInfo, Opened, new}
use dbus_router.Session.Run.{Read}
use dbus_router.Session.Startup.{Course, run}
use dbus_router.Session.State.{Peer, World, Writes}
use dbus_router.Socket.Stream.{Stream}
use dbus_router.Zvariant.{Zvariant}

pub record Router : Type 0 where
  pub listen_path : Bytes
  pub host_addr : Bytes
  pub sandbox_addr : Bytes
  pub config : Config

-- What happens on the three connections of a session: the events and the writes of the handshake with
-- the sandbox bus, the user, those of the handshake with the host bus, and what is delivered and written
-- after both.
pub record Traffic : Type 0 where
  pub auth_writes : Writes
  pub events : List Event
  pub host_writes : Writes
  pub uid : ℕ
  pub host_stream : Stream
  pub writes : Writes
  pub reads : List (Peer × Read)

-- The calls on the path of the router's own socket, with whether each succeeds.
pub record Files : Type 0 where
  pub exists : Bytes → Bool
  pub remove_file : Bytes → Bool
  pub bind : Bytes → Bool

-- `if self.listen_path.exists() { remove_file(..)? }`
abbrev pub removed : Files → Router → Result (Unit {0})
removed files r =
    if files.exists r.listen_path && not (files.remove_file r.listen_path) then err io else ok tt

-- `UnixListener::bind(..)?`
abbrev pub bound : Files → Router → Result (Unit {0})
bound files r = if files.bind r.listen_path then ok tt else err io

-- What the task of a client comes to: `Session::new` failed or panicked, or the session got this far.
pub data Served : Type 0 where
  refused : Error → Served
  panicked : Served
  session : Course → World → Served

module _ (k : Kernel) where
  -- An accepted client: its process, and what happens once the sockets of the buses are there.
  pub record Client : Type 0 where
    pub peer : PeerInfo
    pub traffic : k.Socket → k.Socket → Traffic

module _ (k : Kernel) (z : Zvariant) (glob : Glob) where
  -- `session.run()`
  run_opened : Client k → Opened k → Course × World
  run_opened c o =
      let t = c.traffic o.host_bus o.sandbox_bus in
      run z glob t.auth_writes t.events t.host_writes t.uid t.host_stream t.writes t.reads o.world

  serve_opened : Client k → Result (Opened k) → Served
  unfolding run_opened
  serve_opened c panic = panicked
  serve_opened c (err why) = refused why
  serve_opened c (ok o) = let (course, w) = run_opened c o in session course w

  unfoldable pub serve_client : Router → Client k → Served
  unfolding serve_opened
  serve_client r c = serve_opened c (new k c.peer r.host_addr r.sandbox_addr r.config)

  -- The rounds of the loop: what `accept` gives, `none` where it fails.
  unfoldable pub accept_loop : Router → List (Option (Client k)) → List Served
  accept_loop r [] = []
  accept_loop r (some c ∷ accepts) = serve_client r c ∷ accept_loop r accepts
  accept_loop r (none ∷ accepts) = accept_loop r accepts

  -- `run`: the tasks that were spawned. The loop has no end of its own.
  unfoldable pub run_router : Files → Router → List (Option (Client k)) → Result (List Served)
  run_router files r accepts = do _ ← removed files r; _ ← bound files r; ok (accept_loop r accepts)
