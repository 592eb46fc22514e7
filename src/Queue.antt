-- ===== src/Queue.antt =====
-- net/queue.rs: one queue of the broker.
pub mod Message
pub mod Config
pub mod State
pub mod Ops
pub mod Locks
pub mod Order
pub mod Invariant
pub mod Run
pub mod Fifo
pub mod Acks
pub mod Atomic
pub mod Faults
pub mod Requeue
pub mod Reads
pub mod Payloads
pub mod Sizes
