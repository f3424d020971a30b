-- ===== src/CommandLine.antt =====
-- src/bin/main.rs: from the arguments to the running router. Reading the arguments is the package `clap`'s.
pub mod NoConfig
use dbus_router.Address.Connect.{Kernel}
use dbus_router.Config.Load.{no_rules, load}
use dbus_router.Config.{Config, Glob}
use dbus_router.Prelude.{Option, none, some, List, Bytes, Result, ok, ◌>>=◌}
use dbus_router.Router.{Router, Files, Served, Client, run_router}
use dbus_router.Zvariant.{Zvariant}

pub record Args : Type 0 where
  pub listen : Bytes
  pub host : Bytes
  pub sandbox : Bytes
  pub config : Option Bytes

-- `Router::new`
abbrev pub router_of : Args → Config → Router
router_of args cfg = record {
  listen_path = args.listen;
  host_addr = args.host;
  sandbox_addr = args.sandbox;
  config = cfg;
}

module _ (read_to_string : Bytes → Option Bytes) (from_str : Bytes → Option Config) where
  abbrev pub config_or_default : Option Bytes → Result Config
  config_or_default (some path) = load read_to_string from_str path
  config_or_default none = ok no_rules

  -- `main`, over what `accept` gives
  unfoldable pub main :
      (k : Kernel)
      → Zvariant
      → Glob
      → Files
      → Args
      → List (Option (Client k))
      → Result (List Served)
  main k z glob files args accepts = do
    cfg ← config_or_default args.config
    run_router k z glob files (router_of args cfg) accepts
