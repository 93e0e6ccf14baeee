-- ===== src/Dptunnel.antt =====
-- internal/dptunnel: the packet tunnel of the data plane.
pub mod Lpm
pub mod Replay
pub mod Frame
pub mod Fec
pub mod Session
pub mod Packet
pub mod Router
