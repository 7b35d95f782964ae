-- ===== src/Restore.antt =====
-- The restore controller.
pub mod Objects
pub mod Filters
pub mod Sample
pub mod Cluster
pub mod Updaters
pub mod Resolver
pub mod Content
pub mod Populate
pub mod Contents
pub mod Apply
pub mod Volumes
pub mod Priority
pub mod Resources
pub mod Validate
pub mod History
pub mod Untimed
pub mod Sync
pub mod Process
pub mod Reconcile
mod Examples
