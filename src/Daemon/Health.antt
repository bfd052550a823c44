-- ===== src/Daemon/Health.antt =====
-- The event loop of src/main.rs on a table of healthy peers.
pub mod Sending
pub mod Receiving
pub mod Tasks
pub mod Reloading
