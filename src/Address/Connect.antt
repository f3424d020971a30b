-- ===== src/Address/Connect.antt =====
-- `connect_dbus` and `connect_abstract` of src/conn.rs. The calls of the kernel are a parameter.
use dbus_router.Address.{UnixAddress, path, abstract_name, parse_unix_address}
use dbus_router.Prelude.{Option, Bool, Bytes, io, Result, err, or_err, ◌>>=◌, if◌then◌else◌}

-- The calls that make a socket; each can fail.
pub record Kernel : Type 1 where
  pub Socket : Type 0
  -- `UnixStream::connect`
  pub connect : Bytes → Option Socket
  pub SocketAddr : Type 0
  pub from_abstract_name : Bytes → Option SocketAddr
  pub connect_addr : SocketAddr → Option Socket
  pub set_nonblocking : Socket → Bool
  pub from_std : Socket → Option Socket

module _ (k : Kernel) where
  connect_abstract : Bytes → Result k.Socket
  connect_abstract name = do
    addr ← or_err io (k.from_abstract_name name)
    std_stream ← or_err io (k.connect_addr addr)
    if k.set_nonblocking std_stream then or_err io (k.from_std std_stream) else err io

  connect_to : UnixAddress → Result k.Socket
  unfolding connect_abstract
  connect_to (path p) = or_err io (k.connect p)
  connect_to (abstract_name name) = connect_abstract name

  unfoldable pub connect_dbus : Bytes → Result k.Socket
  unfolding connect_to
  connect_dbus addr = do unix_addr ← parse_unix_address addr; connect_to unix_addr
