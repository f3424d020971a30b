-- ===== src/Session/Open.antt =====
-- `get_peer_exe_path` and `Session::new` of src/session.rs: a session before its first byte.
use dbus_router.Address.Connect.{Kernel, connect_dbus}
use dbus_router.Config.{Config}
use dbus_router.Prelude.{
  ℕ, zero, suc, Option, none, some, [], ◌++◌, Bytes, codes, Result, ok, ◌>>=◌,
}
use dbus_router.Session.State.{World}
use dbus_router.Text.Decimal.{decimal_on}

-- the i32 of a process id
pub data ℤ : Type 0 where
  pos : ℕ → ℤ
  negsuc : ℕ → ℤ

-- What the kernel says of the process behind a socket.
pub record PeerInfo : Type 0 where
  -- `getsockopt` with SO_PEERCRED, `none` where it fails
  pub peer_pid : Option ℤ
  -- `std::fs::read_link`
  pub read_link : Bytes → Option Bytes

-- `format!("/proc/{}/exe", pid)`; a number of 31 bits has ten digits at most
unfoldable pub exe_link : ℕ → Bytes
exe_link pid = codes "/proc/" ++ (decimal_on 10 pid ++ codes "/exe")

exe_of_pid : (Bytes → Option Bytes) → Option ℤ → Option Bytes
exe_of_pid read_link none = none
exe_of_pid read_link (some (negsuc n)) = none
exe_of_pid read_link (some (pos zero)) = none
exe_of_pid read_link (some (pos (suc n))) = read_link (exe_link (suc n))

unfoldable pub get_peer_exe_path : PeerInfo → Option Bytes
unfolding exe_of_pid
get_peer_exe_path info = exe_of_pid info.read_link info.peer_pid

module _ (k : Kernel) where
  -- A session with its sockets; the client's is the argument.
  pub record Opened : Type 0 where
    pub host_bus : k.Socket
    pub sandbox_bus : k.Socket
    pub world : World

  abbrev pub new_world : Option Bytes → Config → World
  new_world exe config = record {
    session = record {
      config = config;
      pending_calls = [];
      client_exe_path = exe;
      exported_services = [];
      sandbox_services = [];
      incoming_calls = [];
      pending_merges = [];
    };
    sent = [];
    attempts = 0;
  }

  unfoldable pub new : PeerInfo → Bytes → Bytes → Config → Result Opened
  new info host_addr sandbox_addr config = do
    let client_exe_path = get_peer_exe_path info
    host_bus ← connect_dbus k host_addr
    sandbox_bus ← connect_dbus k sandbox_addr
    ok (record {
      host_bus = host_bus;
      sandbox_bus = sandbox_bus;
      world = new_world client_exe_path config;
    })
