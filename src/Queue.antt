-- ===== src/Queue.antt =====
-- The task queue (pkg/tasks/queue).
pub mod Types
pub mod Transaction
pub mod Statements
pub mod Enqueue
pub mod Dequeue
pub mod Finish
pub mod Heartbeats
pub mod Invariant
pub mod Lifecycle
