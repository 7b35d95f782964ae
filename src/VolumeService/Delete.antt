-- ===== src/VolumeService/Delete.antt =====
-- The deletion of a content: `isValidDelete`, `processDeleteVolumeBackup` and what they call in
-- backupvolume.go.
pub mod History
pub mod Owners
pub mod Released
pub mod Uncancelled
mod Examples
use kahu.Utils.Metadata.{contains_finalizer, remove_finalizer}
use kahu.Utils.Store.Revision.{store_clean}
use kahu.Api.{ObjectMeta}
use kahu.Backup.Cluster.{Lookup, found, not_found, lookup_error, warning}
use kahu.VolumeService.Cluster.{
  Cluster, Action, VolumeBackupContent, OwnerReference, OwnerBackup, deleting_phase,
  cancelled_backup, deleted_backup, call, ask, log, record_event,
}
use kahu.VolumeService.Updaters.{
  Patched, patch_failed, uncached, patched, error_of, update_phase, patch_backup,
}
use kahu.VolumeService.Progress.{get_vol_identifiers, is_in_progress}
use kahu.Base.{
  String, Bool, true, false, not, Option, none, some, List, [], ◌∷◌, ◌==◌, if◌then◌else◌, Error,
  Result, ok, err, ◌>>=◌, ◌>>◌, pure,
}

abbrev pub volume_backup_finalizer : String
volume_backup_finalizer = "kahu.io/volume-backup-protection"

-- The metadata that a helper for finalizers has changed; the object is not nil.
pub with_meta : VolumeBackupContent → Option ObjectMeta → VolumeBackupContent
with_meta content none = content
with_meta content (some meta) = record content { object_meta = meta }

module _ (c : Cluster) where
  open c use {World, object, is_not_found, is_unavailable, get_owner, cancel_backup, delete_backup}

  owner_found : OwnerReference → Lookup OwnerBackup → Action World (Result Bool)
  owner_found owner (lookup_error e) = pure (err e)
  owner_found owner (not_found e) = pure (ok true)
  owner_found owner (found backup) =
      if not (backup.uid == owner.uid)
      then pure (ok true)
      else if not backup.deleted
      then record_event warning "OwnerNotDeleted" >> pure (ok false)
      else pure (ok true)

  is_valid_delete_with_backup : OwnerReference → Action World (Result Bool)
  is_valid_delete_with_backup owner = ask (get_owner owner.name) >>= owner_found owner

  and_owners : Action World (Result Bool) → Result Bool → Action World (Result Bool)
  and_owners rest (err e) = pure (err e)
  and_owners rest (ok false) = pure (ok false)
  and_owners rest (ok true) = rest

  pub is_valid_delete : List OwnerReference → Action World (Result Bool)
  is_valid_delete [] = pure (ok true)
  is_valid_delete (owner ∷ owners) =
      let rest = is_valid_delete owners in
      if owner.kind == "Backup" then is_valid_delete_with_backup owner >>= and_owners rest else rest

  clean_cache : VolumeBackupContent → Action World (Option Error)
  clean_cache content s = (none, record s { cache = (store_clean object s.cache content).0 })

  finalizer_removed : VolumeBackupContent → Option Error → Action World (Option Error)
  finalizer_removed content (some e) = pure (some e)
  finalizer_removed content none = clean_cache content

  finalizer_patched : Patched → Action World (Option Error)
  finalizer_patched p = pure (error_of p)

  pub ensure_finalizer_remove : VolumeBackupContent → Action World (Option Error)
  ensure_finalizer_remove content =
      if contains_finalizer (some content.object_meta) volume_backup_finalizer
      then patch_backup c content
          (with_meta content (remove_finalizer (some content.object_meta) volume_backup_finalizer))
        >>= finalizer_patched
      else pure none

  -- A driver that is not there is not an error: a later deletion tries again.
  pub backup_deleted : VolumeBackupContent → Option Error → Action World (Option Error)
  backup_deleted content (some e) =
      if is_unavailable e
      then pure none
      else record_event warning "VolumeBackupDeleteFailed" >> pure (some e)
  backup_deleted content none = ensure_finalizer_remove content >>= finalizer_removed content

  backup_cancelled : VolumeBackupContent → Option Error → Action World (Option Error)
  backup_cancelled content (some e) = pure (some e)
  backup_cancelled content none = do
    log (deleted_backup content.name)
    failed ← call (
        delete_backup content.name (get_vol_identifiers content.status.backup_states)
          content.spec.parameters)
    backup_deleted content failed

  pub cancel_answered : Option Error → Action World (Option Error)
  cancel_answered none = pure none
  cancel_answered (some e) =
      if is_unavailable e
      then pure (some e)
      else record_event warning "VolumeBackupCancelFailed" >> pure (some e)

  pub cancel_vol_backup : VolumeBackupContent → Action World (Option Error)
  cancel_vol_backup content = do
    log (cancelled_backup content.name)
    failed ←
        call
          (cancel_backup (get_vol_identifiers content.status.backup_states) content.spec.parameters)
    cancel_answered failed

  phase_updated : Patched → Action World (Option Error)
  phase_updated (patch_failed e) = pure (if is_not_found e then none else some e)
  phase_updated (uncached content e) = pure (if is_not_found e then none else some e)
  phase_updated (patched content) =
      (if is_in_progress content.status.phase then cancel_vol_backup content else pure none)
      >>= backup_cancelled content

  delete_validated : VolumeBackupContent → Result Bool → Action World (Option Error)
  delete_validated content (err e) = pure (some e)
  delete_validated content (ok false) = pure none
  delete_validated content (ok true) = update_phase c content deleting_phase >>= phase_updated

  pub process_delete_volume_backup : VolumeBackupContent → Action World (Option Error)
  process_delete_volume_backup content = is_valid_delete content.owners >>= delete_validated content
