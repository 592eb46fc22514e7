-- ===== src/Server.antt =====
-- net/server.rs: the requests of a client and what the server does with them.
pub mod Wire
pub mod Frame
pub mod Connection
pub mod State
pub mod Handlers
pub mod Updates
pub mod Dispatch
pub mod Invariant
pub mod Isolation
pub mod Delivery
pub mod Refusals
pub mod Traffic
pub mod Locks
pub mod Run
