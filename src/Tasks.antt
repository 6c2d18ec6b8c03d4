-- ===== src/Tasks.antt =====
-- The tasks (pkg/tasks) and what they call: Pulp, the database and Candlepin.
pub mod Effects
pub mod Pulp
pub mod Features
pub mod DistributionHelper
pub mod TemplateContent
pub mod Overrides
pub mod PollTask
pub mod TemplateUpdate
pub mod Candlepin
pub mod SnapshotPublished
pub mod SnapshotHelper
pub mod SnapshotRepository
