-- ===== src/VolumeService.antt =====
-- The services that a volume provider runs. providerframework/volumeservice/backup/backupvolume.go,
-- in parts: its data and what it calls, its updates, the start of a backup, the polling of its
-- progress, its deletion, and its queue.
pub mod Cluster
pub mod Updaters
pub mod Request
pub mod Start
pub mod Progress
pub mod Delete
pub mod Process
pub mod Sample
