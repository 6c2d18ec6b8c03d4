-- ===== src/Examples.antt =====
-- Concrete runs of the queue, its workers and the other parts.
pub mod Tables
pub mod Queue
pub mod Dequeues
pub mod Workers
pub mod Requests
pub mod Manifests
pub mod Worlds
pub mod Tasks
pub mod Updates
pub mod Configurations
