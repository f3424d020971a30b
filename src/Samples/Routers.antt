-- ===== src/Samples/Routers.antt =====
-- The theorems about the router, at one with two clients between which `accept` fails once.
use dbus_router.Address.Connect.{Kernel}
use dbus_router.Auth.Passthrough.{Event, byte}
use dbus_router.Auth.Passthrough as Handshakes
use dbus_router.Bus.{Bus}
use dbus_router.CommandLine.NoConfig.{IsLocal, HasLocalMessages, main-Isolated}
use dbus_router.CommandLine.{Args, router_of, main}
use dbus_router.Config.Load.{no_rules}
use dbus_router.Config.{has_hostpass}
use dbus_router.Prelude.{
  refl, true, false, Option, none, some, List, [], ◌∷◌, ◌++◌, map, All, Bytes, codes, str_eq,
}
use dbus_router.Router.Isolation.{IsSandboxedClient, Isolated, run_router-Isolated}
use dbus_router.Router.{Router, Files, Traffic, Client, accept_loop, run_router}
use dbus_router.Samples.Sockets.{reply_raw}
use dbus_router.Samples.Written.{to_other, other_not-ShownFor, other_not-Covered, not_for_daemon}
use dbus_router.Samples.{sample_config, sample_zvariant, sample_glob, all_writes}
use dbus_router.Session.Open.{pos, get_peer_exe_path}
use dbus_router.Text.Utf8.{from_utf8_lossy}
use dbus_router.Routing.{is_hostpass_client}
use dbus_router.Session.Run.{message}
use dbus_router.Session.State.{client, upstream}
use dbus_router.Socket.Stream.{Ending}

-- Every address has a socket, which is the address itself.
abbrev sample_kernel : Kernel
sample_kernel = record {
  Socket = Bytes;
  connect = some;
  SocketAddr = Bytes;
  from_abstract_name = some;
  connect_addr = some;
  set_nonblocking = λ s. true;
  from_std = some;
}

abbrev sample_files : Files
sample_files = record { exists = λ p. false; remove_file = λ p. false; bind = λ p. true }

abbrev sample_args : Args
sample_args = record {
  listen = codes "/l";
  host = codes "unix:path=/h";
  sandbox = codes "unix:path=/s";
  config = none;
}

abbrev client_says : Bytes → List Event
client_says bytes = map (byte Handshakes.client) bytes

-- A client that starts at once and calls a name, and a message of the sandbox bus.
abbrev sample_traffic : Traffic
sample_traffic = record {
  auth_writes = all_writes;
  events = client_says (0 ∷ (codes "BEGIN" ++ 13 ∷ 10 ∷ []));
  host_writes = all_writes;
  uid = 1000;
  host_stream = record {
    bytes = codes "OK" ++ 13 ∷ 10 ∷ (codes "AGREE_UNIX_FD" ++ 13 ∷ 10 ∷ (reply_raw ++ reply_raw));
    ending = Ending.silent;
  };
  writes = all_writes;
  reads = (client, message to_other) ∷ (upstream Bus.sandbox, message to_other) ∷ [];
}

abbrev sample_client : Client sample_kernel
sample_client = record {
  peer = record { peer_pid = some (pos 7); read_link = λ p. some (codes "/y") };
  traffic = λ host_bus sandbox_bus. sample_traffic;
}

abbrev two_clients : List (Option (Client sample_kernel))
two_clients = some sample_client ∷ none ∷ some sample_client ∷ []

to_other-IsLocal : IsLocal to_other
to_other-IsLocal = record {
  no_reply = refl;
  not_daemon = not_for_daemon;
  not_shown = other_not-ShownFor;
}

local_client : HasLocalMessages sample_kernel (some sample_client)
local_client host_bus sandbox_bus = (to_other-IsLocal, (tt, tt))

local_clients : All (HasLocalMessages sample_kernel) two_clients
local_clients = (local_client, (tt, (local_client, tt)))

main-Isolated_example : All Isolated (
    accept_loop sample_kernel sample_zvariant sample_glob
      (router_of sample_args no_rules)
      two_clients)
unfolding main run_router
main-Isolated_example =
    main-Isolated sample_kernel sample_zvariant sample_glob (λ path. none) (λ text. none)
      sample_files sample_args two_clients _ refl local_clients refl

abbrev ruled_router : Router
ruled_router = router_of sample_args sample_config

sample_client-IsSandboxed :
    IsSandboxedClient sample_kernel sample_zvariant sample_glob sample_config sample_client
unfolding is_hostpass_client get_peer_exe_path has_hostpass str_eq from_utf8_lossy
sample_client-IsSandboxed = record {
  no_pass = refl;
  messages = λ host_bus sandbox_bus. (
    record {
      no_reply = refl;
      not_daemon = not_for_daemon;
      not_shown = other_not-ShownFor;
      not_covered = other_not-Covered;
    },
    (tt, tt),
  );
}

run_router-Isolated_example :
    All Isolated (accept_loop sample_kernel sample_zvariant sample_glob ruled_router two_clients)
unfolding run_router
run_router-Isolated_example =
    run_router-Isolated sample_kernel sample_zvariant sample_glob sample_files ruled_router
      two_clients _ (sample_client-IsSandboxed, (tt, (sample_client-IsSandboxed, tt))) refl
