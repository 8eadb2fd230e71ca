-- ===== src/Net.antt =====
-- The sockets, the timers and the descriptors that they hold.
pub mod Udp
pub mod Timer
pub mod Descriptors
pub mod Inet
pub mod Socket
