-- ===== src/Daemon.antt =====
-- src/main.rs: what the daemon does with a packet of the TUN device, with a datagram of the UDP
-- socket, on its timers and on SIGHUP. The event loop's state is `World`; a handler returns it
-- changed, with the datagrams and the TUN writes that it adds. One packet is handled at one time,
-- and no other thread's call falls in between.
mod State
pub mod Packet
pub mod Outbound
pub mod Inbound
pub mod Health
pub mod Periodic
pub mod Reload
pub mod Run
pub mod Link
pub mod Boot
unfoldable pub use State.*
