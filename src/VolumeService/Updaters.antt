-- ===== src/VolumeService/Updaters.antt =====
-- The updates of backupvolume.go, and the key function of its queue.
pub mod History
pub mod Operations
use kahu.Utils.Store.Revision.{store_revision_update}
use kahu.Backup.Cluster.{Lookup, lookup_error, EventType, warning, Call}
use kahu.VolumeService.Cluster.{
  Cluster, Action, VolumeBackupContent, VolumeBackupContentStatus, Phase, failed, Work,
  wrote_status, wrote_metadata, call, log, record_event,
}
use kahu.Base.{String, Option, none, some, Error, wrap, Result, ok, err, ◌>>=◌, ◌>>◌, pure}

-- What `patchBackup` and `patchBackupStatus` return: a nil content and an error, a content and an
-- error, or a content.
pub data Patched : Type 0 where
  patch_failed : Error → Patched
  uncached : VolumeBackupContent → Error → Patched
  patched : VolumeBackupContent → Patched

unfoldable pub error_of : Patched → Option Error
error_of (patch_failed e) = some e
error_of (uncached content e) = some e
error_of (patched content) = none

unfoldable pub with_status : VolumeBackupContent → VolumeBackupContentStatus → VolumeBackupContent
with_status content status = record content { status = status }

unfoldable pub with_phase : VolumeBackupContent → Phase → VolumeBackupContent
with_phase content phase =
    let status = content.status in with_status content (record status { phase = phase })

module _ (c : Cluster) where
  open c use {
    World, Patch, object, split_key, get_content, merge_patch, send_patch, send_status_patch,
  }

  -- `getVolumeBackup`
  unfoldable pub found_key : World → Result String → Lookup VolumeBackupContent
  found_key w (err e) = lookup_error e
  found_key w (ok name) = get_content name w

  unfoldable pub get_volume_backup : String → World → Lookup VolumeBackupContent
  get_volume_backup index w = found_key w (split_key index)

  -- `StoreRevisionUpdate` on the cache, for its error alone.
  unfoldable pub revise : VolumeBackupContent → Action World (Option Error)
  revise content s =
      let (cache, result) = store_revision_update object s.cache content in
      (elim result [ ok _ ↦ none | err e ↦ some e ], record s { cache = cache })

  unfoldable pub patch_cached : VolumeBackupContent → Option Error → Patched
  patch_cached updated none = patched updated
  patch_cached updated (some e) = uncached updated (wrap e "Failed to updated processed VBC cache")

  unfoldable pub patch_sent : Result VolumeBackupContent → Action World Patched
  patch_sent (err e) = pure (patch_failed (wrap e "error patching backup"))
  patch_sent (ok updated) = do failed_with ← revise updated; pure (patch_cached updated failed_with)

  unfoldable pub patch_merged :
      Work → (Patch → Call World (Result VolumeBackupContent)) → Result Patch → Action World Patched
  patch_merged work send (err e) = pure (patch_failed e)
  patch_merged work send (ok patch) = log work >> (call (send patch) >>= patch_sent)

  pub patch_backup : VolumeBackupContent → VolumeBackupContent → Action World Patched
  patch_backup old_backup new_backup =
      patch_merged (wrote_metadata new_backup) (send_patch old_backup.name)
        (merge_patch old_backup new_backup)

  unfoldable pub patch_backup_status :
      VolumeBackupContent → VolumeBackupContent → Action World Patched
  patch_backup_status old_backup new_backup =
      patch_merged (wrote_status new_backup) (send_status_patch old_backup.name)
        (merge_patch old_backup new_backup)

  pub update_phase : VolumeBackupContent → Phase → Action World Patched
  update_phase backup phase = patch_backup_status backup (with_phase backup phase)

  -- The event follows an update without an error.
  report : EventType → String → Patched → Action World Patched
  report event_type reason (patched updated) =
      record_event event_type reason >> pure (patched updated)
  report event_type reason (uncached updated e) = pure (uncached updated e)
  report event_type reason (patch_failed e) = pure (patch_failed e)

  pub update_status_with_event :
      VolumeBackupContent → VolumeBackupContent → EventType → String → Action World Patched
  update_status_with_event backup new_backup event_type reason =
      patch_backup_status backup new_backup >>= report event_type reason

  pub update_status_with_failure : VolumeBackupContent → String → Action World Patched
  update_status_with_failure backup msg =
      let status = backup.status in
      patch_backup_status backup
        (with_status backup (record status { phase = failed; failure_reason = msg }))
      >>= report warning "VolumeBackupFailed"

  pub update_phase_with_event :
      VolumeBackupContent → Phase → EventType → String → Action World Patched
  update_phase_with_event backup phase event_type reason =
      update_phase backup phase >>= report event_type reason
