-- ===== src/Bus.antt =====
-- src/bus.rs
use dbus_router.Prelude.{Bool, true, false}

pub data Bus : Type 0 where
  host sandbox : Bus

-- the derived `PartialEq`
unfoldable pub bus_eq : Bus → Bus → Bool
bus_eq Bus.host Bus.host = true
bus_eq Bus.sandbox Bus.sandbox = true
bus_eq _ _ = false
