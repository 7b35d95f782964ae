-- ===== src/Backup.antt =====
-- controllers/backup: the controller that drives a backup through its stages.
pub mod Cluster
pub mod Status
pub mod Updaters
pub mod Volumes
pub mod Metadata
pub mod Order
pub mod Sync
pub mod Validate
pub mod Process
pub mod Objects
pub mod Dependency
pub mod Collect
pub mod Reconcile
mod Sample
mod Examples
