-- ===== src/Session.antt =====
-- src/session.rs: one client with its connections to both buses.
pub mod State
pub mod Adds
pub mod ToClient
pub mod Targets
pub mod Merge
pub mod Upstream
pub mod Client
pub mod Run
pub mod Startup
pub mod Open
pub mod Log
pub mod CallAnswer
