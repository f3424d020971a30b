-- ===== src/Auth/Relayed.antt =====
-- What the handshake has passed on, at any point of it.
use dbus_router.Prelude.{List}
