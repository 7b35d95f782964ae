-- ===== src/Backup/Process.antt =====
-- `processQueue`, `backupInitialize`, `ensureSupportedResourceList` and `deleteBackup` of
-- controllers/backup/backupcontroller.go.
pub mod Stale
pub mod Deletion
use kahu.Api.{Backup, BackupStage, ObjectMeta, no_stage, initial, completed}
use kahu.Utils.Metadata.{
  contains_finalizer, set_finalizer, remove_finalizer, contains_annotation, set_annotation,
}
use kahu.Utils.Store.Revision.{store_revision_update, store_clean}
use kahu.Backup.Cluster.{
  Cluster, Action, ContentRef, Lookup, found, not_found, lookup_error, normal, call, ask, pure,
  ◌>>=◌,
}
use kahu.Backup.Updaters.{
  Returned, Patched, patch_failed, uncached, patched, patch_backup, update_backup_status,
  update_backup_status_with_event,
}
use kahu.Backup.Volumes.{of_state, remove_volume_backup}
use kahu.Backup.Metadata.{delete_metadata_backup}
use kahu.Backup.Validate.{validate_backup}
use kahu.Backup.Collect.{ann_resource_selector}
use kahu.Backup.Sync.{sync_backup}
use kahu.Base.{
  ℕ, String, Bool, true, false, not, ◌||◌, Option, none, some, List, [], ◌∷◌, ◌==◌, if◌then◌else◌,
  Error, wrap, Result, ok, err, ◌>>◌, pure,
}

-- controllers/backup/constants.go and backupresources.go
abbrev backup_finalizer : String
backup_finalizer = "kahu.io/backup-protection"

abbrev ann_backup_cleanup_done : String
ann_backup_cleanup_done = "kahu.io/backup-cleanup-done"

-- A handler returns, or panics.
pub data Outcome : Type 0 where
  returned : Option Error → Outcome
  panicked : Outcome

-- The object of a helper that changes metadata, which is not nil here.
unfoldable pub with_meta : Backup → Option ObjectMeta → Backup
with_meta backup none = backup
with_meta backup (some meta) = record backup { object_meta = meta }

is_new_stage : BackupStage → Bool
is_new_stage no_stage = true
is_new_stage initial = true
is_new_stage _ = false

is_backup_init_needed : Backup → Bool
is_backup_init_needed backup =
    not (contains_finalizer (some backup.object_meta) backup_finalizer)
    || is_new_stage backup.status.stage

-- The status that `backupInitialize` gives its clone; the start time is kept if it is set.
initial_stage : BackupStage → BackupStage
initial_stage no_stage = initial
initial_stage stage = stage

start_time : Option ℕ → Option ℕ → ℕ → Option ℕ
start_time none cloned now = some now
start_time (some t) cloned now = cloned

module _ (c : Cluster) (supported_resources : String) where
  open c use {World, now, object, split_key, get_backup, list_contents}

  -- The end of `backupInitialize`: the clone is compared with its own status.
  start_backup : Backup → Backup → Action World Returned
  start_backup backup clone = do
    time ← ask now
    let status = record (clone.status) {
      stage = initial_stage clone.status.stage;
      start_timestamp = start_time backup.status.start_timestamp clone.status.start_timestamp time;
    }
    update_backup_status c (record clone { status = status }) status

  finalizer_patched : Backup → Patched → Action World Returned
  finalizer_patched backup (patch_failed e) =
      pure (backup, some (wrap e "Unable to update finalizer"))
  finalizer_patched backup (uncached updated e) =
      pure (backup, some (wrap e "Unable to update finalizer"))
  finalizer_patched backup (patched updated) = start_backup backup updated

  backup_initialize : Backup → Action World Returned
  backup_initialize backup =
      if not (contains_finalizer (some backup.object_meta) backup_finalizer)
      then patch_backup c backup
          (with_meta backup (set_finalizer (some backup.object_meta) backup_finalizer))
        >>= finalizer_patched backup
      else start_backup backup backup

  -- A nil backup comes with an error, so the handler that gets it returns.
  of_patched : Backup → Patched → Returned
  of_patched backup (patch_failed e) = (backup, some e)
  of_patched backup (uncached updated e) = (updated, some e)
  of_patched backup (patched updated) = (updated, none)

  patch_selector : Backup → Action World Returned
  patch_selector backup = do
    let meta = some backup.object_meta
    let selected = set_annotation meta ann_resource_selector supported_resources
    p ← patch_backup c backup (with_meta backup selected)
    pure (of_patched backup p)

  ensure_supported_resource_list : Backup → Action World Returned
  ensure_supported_resource_list backup =
      if contains_annotation (some backup.object_meta) ann_resource_selector
      then pure (backup, none)
      else if not (supported_resources == "")
      then patch_selector backup
      else pure (backup, none)

  -- `StoreClean` on the backup that `patchBackup` returned; on a nil one its key function panics.
  unfoldable pub clean_cache : Backup → Action World Outcome
  clean_cache backup s =
      let (cache, failed) = store_clean object s.cache backup in
      (returned failed, record s { cache = cache })

  unfoldable pub deletion_patched : Patched → Action World Outcome
  deletion_patched (patch_failed e) = pure panicked
  deletion_patched (uncached updated e) = clean_cache updated
  deletion_patched (patched updated) = clean_cache updated

  unfoldable pub metadata_deleted : Backup → Option Error → Action World Outcome
  metadata_deleted backup (some e) = pure (returned (some e))
  metadata_deleted backup none =
      let unprotected =
        with_meta backup (remove_finalizer (some backup.object_meta) backup_finalizer) in
      patch_backup c backup (
        with_meta unprotected
          (set_annotation (some unprotected.object_meta) ann_backup_cleanup_done "true"))
      >>= deletion_patched

  -- The contents that are left when the deletion of all was asked for.
  unfoldable pub contents_left : Backup → Result (List ContentRef) → Action World Outcome
  contents_left backup (err e) = pure (returned (some e))
  contents_left backup (ok (v ∷ vs)) = pure (returned none)
  contents_left backup (ok []) = delete_metadata_backup c backup >>= metadata_deleted backup

  unfoldable pub contents_removed : Backup → Option Error → Action World Outcome
  contents_removed backup (some e) = pure (returned (some e))
  contents_removed backup none = call (list_contents backup.name) >>= contents_left backup

  unfoldable pub delete_backup : Backup → Action World Outcome
  delete_backup backup = remove_volume_backup c backup >>= contents_removed backup

  sync_returned : Returned → Action World Outcome
  sync_returned (backup, some e) = pure (returned (some e))
  sync_returned (backup, none) = sync_backup c backup >>= λ e. pure (returned e)

  resources_ensured : Returned → Action World Outcome
  resources_ensured (backup, some e) = pure (returned (some e))
  resources_ensured (backup, none) =
      update_backup_status_with_event c backup (of_state completed) normal "ValidationSuccessful"
      >>= sync_returned

  -- A backup that is not valid is not tried again.
  validated : Backup → Bool × Option Error → Action World Outcome
  validated backup (false, e) = pure (returned none)
  validated backup (true, e) = ensure_supported_resource_list backup >>= resources_ensured

  initialized : Returned → Action World Outcome
  initialized (backup, some e) = pure (returned (some e))
  initialized (backup, none) = validate_backup c backup >>= validated backup

  -- A backup of the cache, of a revision that is not older than the one processed.
  process_backup : Backup → Action World Outcome
  process_backup backup =
      if backup.deleted
      then delete_backup backup
      else if is_new_stage backup.status.stage
      then (if is_backup_init_needed backup then backup_initialize backup else pure (backup, none))
        >>= initialized
      else sync_backup c backup >>= λ e. pure (returned e)

  -- An error of the cache is logged; the backup then counts as old.
  process_if_new : Backup → Result Bool → Action World Outcome
  process_if_new backup (ok true) = process_backup backup
  process_if_new backup (ok false) = pure (returned none)
  process_if_new backup (err e) = pure (returned none)

  process_found : Lookup Backup → Action World Outcome
  process_found (not_found e) s = (returned none, s)
  process_found (lookup_error e) s =
      (returned (some (wrap e "error getting backup from lister")), s)
  process_found (found backup) s =
      let (cache, result) = store_revision_update object s.cache backup in
      process_if_new backup result (record s { cache = cache })

  process_key : Result String → Action World Outcome
  process_key (err e) = pure (returned (some e))
  process_key (ok name) = ask (get_backup name) >>= process_found

  pub process_queue : String → Action World Outcome
  process_queue key = process_key (split_key key)
