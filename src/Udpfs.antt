-- ===== src/Udpfs.antt =====
-- The package udpfs/: requests, the replies to them, and the interface of the file system.
pub mod MsgType
pub mod Codes
pub mod Replies
pub mod Interface
pub mod Requests
pub mod Connection
pub mod Handlers
pub mod Writes
pub mod Dispatch
pub mod Client
pub mod Reopen
pub mod Laws
pub mod Safety
mod Tests
