-- ===== src/Udprdma.antt =====
-- The packages of udprdma/: the wire format, and the session that sends and receives reliably.
pub mod Protocol
pub mod Session
pub mod AckTimer
pub mod Transmit
pub mod Acks
pub mod Receive
pub mod Channel
pub mod Window
pub mod Transfer
pub mod Invariant
pub mod Timeout
pub mod Progress
mod Tests
