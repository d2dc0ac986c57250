-- ===== src/Status.antt =====
-- src/status.rs: the status socket.
pub mod Command
pub mod Snapshot
pub mod Subscribers
pub mod Converge
pub mod Reference
pub mod Stream
pub mod Client
pub mod Safety
pub mod Requests
