-- ===== src/Backup/Updaters.antt =====
-- controllers/backup/updaters.go, and `annotateBackup` of backupvolume.go: the writes of a backup
-- to the API server and to the cache of processed revisions.
pub mod Writes
pub mod Dropped
pub mod Examples
use kahu.Api.{Backup, BackupStatus}
use kahu.Utils.Store.Revision.{store_revision_update}
use kahu.Backup.Cluster.{
  Cluster, Action, wrote_status, wrote_metadata, EventType, call, log, record_event, pure, ◌>>=◌,
  ◌>>◌,
}
use kahu.Backup.Status.{draft_status}
use kahu.Base.{
  String, true, not, Option, none, some, ◌==◌, if◌then◌else◌, Error, wrap, Result, ok, err, at_key,
  put, pure,
}

-- `(*Backup, error)`, where the backup is not nil.
abbrev pub Returned : Type 0
Returned = Backup × Option Error

-- What `patchBackup` returns: a nil backup and an error, a backup and an error, or a backup.
pub data Patched : Type 0 where
  patch_failed : Error → Patched
  uncached : Backup → Error → Patched
  patched : Backup → Patched

module _ (c : Cluster) where
  open c use {World, Patch, object, merge_patch, send_patch, send_status}

  -- `StoreRevisionUpdate` on the cache, for its error alone.
  unfoldable pub revise : Backup → Action World (Option Error)
  revise backup s =
      let (cache, result) = store_revision_update object s.cache backup in
      (elim result [ ok _ ↦ none | err e ↦ some e ], record s { cache = cache })

  revised : Backup → Option Error → Returned
  revised backup none = (backup, none)
  revised backup (some e) = (backup, some (wrap e "Failed to updated processed backup cache"))

  -- The error of `UpdateStatus` is logged, and the next assignment to `err` replaces it.
  write_status : Backup → Action World Returned
  write_status clone = do
    log (wrote_status clone)
    sent ← call (send_status clone)
    failed ← revise sent.0
    pure (revised sent.0 failed)

  pub update_backup_status : Backup → BackupStatus → Action World Returned
  update_backup_status backup status =
      let draft = draft_status backup.status status in
      let clone = record backup { status = draft.status } in
      if draft.dirty then write_status clone else pure (clone, none)

  -- The event is recorded if the write gave the backup a new version.
  report : Backup → EventType → String → Returned → Action World Returned
  report backup event_type reason (updated, some e) = pure (updated, some e)
  report backup event_type reason (updated, none) =
      if not (updated.resource_version == backup.resource_version)
      then record_event event_type reason >> pure (updated, none)
      else pure (updated, none)

  pub update_backup_status_with_event :
      Backup → BackupStatus → EventType → String → Action World Returned
  update_backup_status_with_event backup status event_type reason =
      update_backup_status backup status >>= report backup event_type reason

  unfoldable pub patch_cached : Backup → Option Error → Patched
  patch_cached updated none = patched updated
  patch_cached updated (some e) =
      uncached updated (wrap e "Failed to updated processed backup cache")

  unfoldable pub patch_sent : Returned → Action World Patched
  patch_sent (updated, some e) = pure (patch_failed (wrap e "error patching backup"))
  patch_sent (updated, none) = do failed ← revise updated; pure (patch_cached updated failed)

  unfoldable pub patch_merged : Backup → Backup → Result Patch → Action World Patched
  patch_merged old_backup new_backup (err e) = pure (patch_failed e)
  patch_merged old_backup new_backup (ok patch) =
      log (wrote_metadata new_backup) >> (call (send_patch old_backup.name patch) >>= patch_sent)

  unfoldable pub patch_backup : Backup → Backup → Action World Patched
  patch_backup old_backup new_backup =
      patch_merged old_backup new_backup (merge_patch old_backup new_backup)

  annotate_merged : Backup → Backup → Result Patch → Action World Returned
  annotate_merged backup clone (err e) = pure (backup, some e)
  annotate_merged backup clone (ok patch) = do
    log (wrote_metadata clone)
    sent ← call (send_patch backup.name patch)
    pure (sent.0, none)

  annotate_patch : Backup → Backup → Action World Returned
  annotate_patch backup clone = annotate_merged backup clone (merge_patch backup clone)

  -- An error of `Patch` is logged and dropped: what `Patch` returned is the result.
  pub annotate_backup : String → Backup → Action World Returned
  annotate_backup annotation backup = elim (at_key backup.object_meta.annotations annotation) [
    | some _ ↦ pure (backup, none)
    | none ↦
        let meta = backup.object_meta in
        let annotated = record meta { annotations = put meta.annotations annotation "true" } in
        annotate_patch backup (record backup { object_meta = annotated })
  ]
