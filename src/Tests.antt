-- ===== src/Tests.antt =====
-- Runs of the library at concrete inputs: one network of two nodes, and the theorems applied to
-- it.
pub mod World
mod Crypto
mod Manager
mod Wire
mod Daemon
mod Run
mod Config
mod Node
mod Boot
mod Ctl
