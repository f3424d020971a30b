-- ===== src/Config/Load.antt =====
-- `Config::load` of src/config.rs. What the file system reads and the package `toml` are parameters.
use dbus_router.Config.{Config}
use dbus_router.Prelude.{Option, [], Bytes, io, toml, Result, ok, or_err, ◌>>=◌}

-- `Config::default()`
abbrev pub no_rules : Config
no_rules = record { host_routes = []; hostpass = [] }

module _ (read_to_string : Bytes → Option Bytes) (from_str : Bytes → Option Config) where
  unfoldable pub load : Bytes → Result Config
  load path = do
    content ← or_err io (read_to_string path)
    config ← or_err toml (from_str content)
    ok config
