-- ===== src/CommandLine/NoConfig.antt =====
-- A router that is started without a configuration file.
use dbus_router.Address.Connect.{Kernel}
use dbus_router.Bus.{Bus}
use dbus_router.CommandLine.{Args, router_of, main}
use dbus_router.Config.Load.{no_rules}
use dbus_router.Config.{Config, Glob, has_hostpass}
use dbus_router.Message.{Message}
use dbus_router.Prelude.{◌≡◌, refl, false, Option, none, some, List, [], ◌∷◌, All, Bytes, ok}
use dbus_router.Router.Isolation.{Accepted, Isolated, run_router-Isolated}
use dbus_router.Router.{Files, Served, Client}
use dbus_router.Routing.Decisions.{ShownFor, Covered, is_for_daemon}
use dbus_router.Routing.{is_hostpass_client}
use dbus_router.Session.Client.{is_reply}
use dbus_router.Session.Open.{new_world, get_peer_exe_path}
use dbus_router.Session.Run.Isolation.{IsSandboxed}
use dbus_router.Session.Run.Written.{FromClient}
use dbus_router.Session.Run.{Read, message, closed, failed}
use dbus_router.Session.State.{Peer, client, upstream, Session}
use dbus_router.Zvariant.{Zvariant}

-- No reply, not for the bus daemon, and not for the fake name of a host peer.
pub record IsLocal (msg : Message) : Type 0 where
  pub no_reply : is_reply msg.header.msg_type ≡ false
  pub not_daemon : is_for_daemon msg ≡ false
  pub not_shown : ¬ ShownFor msg.header.destination Bus.host

-- Without rules no executable has a hostpass, and no name is covered.
no_rules-no_pass : (glob : Glob) (exe : Option Bytes) → is_hostpass_client glob no_rules exe ≡ false
unfolding is_hostpass_client has_hostpass
no_rules-no_pass glob none = refl
no_rules-no_pass glob (some exe) = refl

no_rules-no_cover : (dest : Option Bytes) → ¬ Covered no_rules dest
no_rules-no_cover none c = c
no_rules-no_cover (some dest) c = elim c [ ]

module _ (s : Session) (no_config : s.config ≡ no_rules) where
  IsLocal-IsSandboxed : (msg : Message) → IsLocal msg → IsSandboxed s msg
  IsLocal-IsSandboxed msg l = record {
    no_reply = l.no_reply;
    not_daemon = l.not_daemon;
    not_shown = l.not_shown;
    not_covered = rw no_config (no_rules-no_cover msg.header.destination);
  }

  local_reads :
      (reads : List (Peer × Read))
      → All (FromClient IsLocal) reads
      → All (FromClient (IsSandboxed s)) reads
  local_reads [] l = tt
  local_reads ((client, message msg) ∷ reads) (l, ls) =
      (IsLocal-IsSandboxed msg l, local_reads reads ls)
  local_reads ((client, closed) ∷ reads) (l, ls) = (tt, local_reads reads ls)
  local_reads ((client, failed e) ∷ reads) (l, ls) = (tt, local_reads reads ls)
  local_reads ((upstream bus, read) ∷ reads) (l, ls) = (tt, local_reads reads ls)

module _ (k : Kernel) where
  -- A client, if there is one, all of whose messages are local.
  abbrev pub HasLocalMessages : Option (Client k) → Type 0
  HasLocalMessages none = Unit
  HasLocalMessages (some c) =
      (host_bus sandbox_bus : k.Socket)
      → All (FromClient IsLocal) (c.traffic host_bus sandbox_bus).reads

module _ (k : Kernel) (z : Zvariant) (glob : Glob) where
  local-Accepted :
      (accepts : List (Option (Client k)))
      → All (HasLocalMessages k) accepts
      → All (Accepted k z glob no_rules) accepts
  local-Accepted [] l = tt
  local-Accepted (none ∷ accepts) (_, ls) = (tt, local-Accepted accepts ls)
  local-Accepted (some c ∷ accepts) (l, ls) = (
    record {
      no_pass = no_rules-no_pass glob (get_peer_exe_path c.peer);
      messages = λ host_bus sandbox_bus.
          local_reads (new_world k (get_peer_exe_path c.peer) no_rules).session refl
            (c.traffic host_bus sandbox_bus).reads (l host_bus sandbox_bus);
    },
    local-Accepted accepts ls,
  )

  -- A router that is started without a configuration file, whatever executables its clients are: no
  -- session forwards a message to the host bus if the messages of the clients are no replies, not for
  -- the bus daemon, and not for the fake name of a host peer.
  pub main-Isolated :
      (read_to_string : Bytes → Option Bytes) (from_str : Bytes → Option Config) (files : Files)
      (args : Args) (accepts : List (Option (Client k))) (tasks : List Served)
      → args.config ≡ none
      → All (HasLocalMessages k) accepts
      → main read_to_string from_str k z glob files args accepts ≡ ok tasks
      → All Isolated tasks
  unfolding main
  main-Isolated read_to_string from_str files args accepts tasks no_file l e =
      run_router-Isolated k z glob files (router_of args no_rules) accepts tasks
        (local-Accepted accepts l) (rw no_file at e)
