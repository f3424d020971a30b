-- ===== src/Daemon.antt =====
-- src/dbus/daemon.rs: what the router does itself for the bus daemon's own methods.
pub mod Routes
pub mod Body
pub mod Names
