-- ===== src/Udpfs/Safety.antt =====
-- udpfs/handlers.go and udpfs/connection.go: which requests are handled without a panic.
pub mod Sending
pub mod Answers
pub mod Handling
pub mod Writing
