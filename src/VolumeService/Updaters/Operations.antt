-- ===== src/VolumeService/Updaters/Operations.antt =====
-- The updates leave the operations alone.
use kahu.Backup.Cluster.{Call, EventType}
use kahu.VolumeService.Cluster.{Cluster, Machine, VolumeBackupContent, Work, wrote_status}
use kahu.VolumeService.Updaters.{
  Patched, patched, patch_failed, uncached, revise, patch_backup_status, patch_merged, patch_sent,
  report, update_status_with_event, update_status_with_failure,
}
use kahu.Base.{String, ◌≡◌, refl, ◌∙◌, Result, ok, err}

module _ (c : Cluster) where
  patch_sent-operations :
      (r : Result VolumeBackupContent) (s : Machine c.World)
      → (patch_sent c r s).1.operations ≡ s.operations
  unfolding patch_sent revise
  patch_sent-operations (err e) s = refl
  patch_sent-operations (ok updated) s = refl

  patch_merged-operations :
      (work : Work) (send : c.Patch → Call c.World (Result VolumeBackupContent))
      (r : Result c.Patch) (s : Machine c.World)
      → (patch_merged c work send r s).1.operations ≡ s.operations
  unfolding patch_merged
  patch_merged-operations work send (err e) s = refl
  patch_merged-operations work send (ok patch) s = patch_sent-operations (send patch s.world).0 _

  report-operations :
      (event_type : EventType) (reason : String) (p : Patched) (s : Machine c.World)
      → (report c event_type reason p s).1.operations ≡ s.operations
  unfolding report
  report-operations event_type reason (patch_failed e) s = refl
  report-operations event_type reason (uncached content e) s = refl
  report-operations event_type reason (patched content) s = refl

  pub update_status_with_event-operations :
      (old new : VolumeBackupContent) (event_type : EventType) (reason : String)
      (s : Machine c.World)
      → (update_status_with_event c old new event_type reason s).1.operations ≡ s.operations
  unfolding update_status_with_event patch_backup_status
  update_status_with_event-operations old new event_type reason s =
      report-operations event_type reason _ _
      ∙ patch_merged-operations (wrote_status new) _ (c.merge_patch old new) s

  pub update_status_with_failure-operations :
      (content : VolumeBackupContent) (msg : String) (s : Machine c.World)
      → (update_status_with_failure c content msg s).1.operations ≡ s.operations
  unfolding update_status_with_failure patch_backup_status
  update_status_with_failure-operations content msg s =
      report-operations _ _ _ _ ∙ patch_merged-operations _ _ (c.merge_patch content _) s
