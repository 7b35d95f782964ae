-- ===== src/Restore/Process.antt =====
-- `processQueue` and `deleteRestore` of controllers/restore/restorecontroller.go, and
-- `removeVolumeRestore`, `prepareVRCCleanup` and `cleanupRestoredMetadata` of volumerestore.go.
pub mod Tidied
pub mod Deletion
mod Examples
use kahu.Utils.Metadata.{remove_finalizer, set_annotation}
use kahu.Utils.Store.Revision.{store_revision_update, store_clean}
use kahu.Backup.Cluster.{Lookup, found, not_found, lookup_error}
use kahu.Restore.Objects.{Restore, RestoreResource, VolumeRestoreContent}
use kahu.Restore.Filters.{Indexer}
use kahu.Restore.Cluster.{
  Cluster, Action, Fault, raised, nil_pointer, stack_overflow, deleted_content, marked_content,
  wrap_fault, call, ask, log,
}
use kahu.Restore.Updaters.{patch_restore}
use kahu.Restore.Apply.{delete_restored_resource}
use kahu.Restore.Sync.{restore_completed, restore_finalizer, with_meta, sync_restore}
use kahu.Base.{
  ℕ, String, Bool, true, false, Option, none, some, List, [], ◌∷◌, if◌then◌else◌, Error, wrap,
  Result, ok, err, at_key, ◌>>=◌, ◌>>◌, pure,
}

-- controllers/restore/constants.go
abbrev ann_volume_resource_cleanup : String
ann_volume_resource_cleanup = "kahu.io/volume-resource-cleanup"

abbrev ann_restore_cleanup_done : String
ann_restore_cleanup_done = "kahu.io/restore-cleanup-done"

module _ (ix : Indexer) (c : Cluster ix.Cache) (stack : ℕ) where
  open ix use {empty}
  open c use {
    World, object, is_conflict, split_key, get_restore, list_contents, delete_content,
    annotate_content,
  }

  mark_unless : VolumeRestoreContent → Option String → Action c (Option Error)
  mark_unless v (some value) = pure none
  mark_unless v none =
      log (marked_content v.name) >> call (annotate_content v ann_volume_resource_cleanup)

  -- `annotateVolRestoreContent`, for its error.
  annotate_vrc : VolumeRestoreContent → Action c (Option Error)
  annotate_vrc v = mark_unless v (at_key v.annotations ann_volume_resource_cleanup)

  mark_rest : Action c (Unit {0}) → Option Error → Action c (Unit {0})
  mark_rest rest (some e) = pure tt
  mark_rest rest none = rest

  -- `prepareVRCCleanup`, whose error is logged. The first error ends the loop.
  prepare_vrc_cleanup : List VolumeRestoreContent → Action c (Unit {0})
  prepare_vrc_cleanup [] = pure tt
  prepare_vrc_cleanup (v ∷ vs) =
      let rest = prepare_vrc_cleanup vs in
      if v.deleting then rest else annotate_vrc v >>= mark_rest rest

  delete_rest : Action c (Option Fault) → Option Error → Action c (Option Fault)
  delete_rest rest none = rest
  delete_rest rest (some e) = pure (some (raised (wrap e "Unable to delete volume backup content")))

  delete_one : String → Action c (Option Fault) → Action c (Option Fault)
  delete_one name rest =
      log (deleted_content name) >> (call (delete_content name) >>= delete_rest rest)

  pub delete_contents : List VolumeRestoreContent → Action c (Option Fault)
  delete_contents [] = pure none
  delete_contents (v ∷ vs) =
      let rest = delete_contents vs in if v.deleting then rest else delete_one v.name rest

  contents_listed : Restore → Result (List VolumeRestoreContent) → Action c (Option Fault)
  contents_listed restore (err e) =
      pure (some (raised (wrap e "unable to get volume restore content list")))
  contents_listed restore (ok vs) =
      if restore_completed restore
      then delete_contents vs
      else prepare_vrc_cleanup vs >> delete_contents vs

  pub remove_volume_restore : Restore → Action c (Option Fault)
  remove_volume_restore restore = call (list_contents restore.name) >>= contents_listed restore

  both_clean : Bool → Option Error → Bool
  both_clean clean none = clean
  both_clean clean (some e) = false

  -- All resources are tried; the result says whether none failed.
  delete_resources : String → List RestoreResource → Action c Bool
  delete_resources restore_name [] = pure true
  delete_resources restore_name (r ∷ rs) = do
    e ← delete_restored_resource c r restore_name
    clean ← delete_resources restore_name rs
    pure (both_clean clean e)

  mark_clean : Restore → Bool → Action c (Option Fault)
  mark_clean restore false = pure none
  mark_clean restore true = do
    let annotated = set_annotation (some restore.object_meta) ann_restore_cleanup_done "true"
    updated ← patch_restore c restore (with_meta restore annotated)
    pure updated.1

  pub cleanup_restored_metadata : Restore → Action c (Option Fault)
  cleanup_restored_metadata restore =
      delete_resources restore.name restore.status.resources >>= mark_clean restore

  clean_cache : Restore → Action c (Option Fault)
  clean_cache restore s =
      let (processed, problem) = store_clean object s.processed restore in
      (elim problem [ none ↦ none | some e ↦ some (raised e) ], record s { processed = processed })

  -- The error of the patch is logged: the cache is cleaned either way.
  give_up_restore : Restore → Action c (Option Fault)
  give_up_restore restore =
      patch_restore c restore
        (with_meta restore (remove_finalizer (some restore.object_meta) restore_finalizer))
      >>= λ updated. clean_cache restore

  contents_left : Restore → Result (List VolumeRestoreContent) → Action c (Option Fault)
  contents_left restore (err e) = pure (some (raised e))
  contents_left restore (ok (v ∷ vs)) = pure none
  contents_left restore (ok []) = give_up_restore restore

  resources_cleaned : Restore → Option Fault → Action c (Option Fault)
  resources_cleaned restore (some fault) =
      pure (some (wrap_fault fault "Unable to cleanup restored metadata"))
  resources_cleaned restore none = call (list_contents restore.name) >>= contents_left restore

  -- Only a restore that is not fully successful is cleaned up.
  pub cleanup : Restore → Action c (Option Fault)
  cleanup restore =
      if restore_completed restore then pure none else cleanup_restored_metadata restore

  contents_removed : Restore → Option Fault → Action c (Option Fault)
  contents_removed restore (some fault) = pure (some fault)
  contents_removed restore none = cleanup restore >>= resources_cleaned restore

  pub delete_restore : Restore → Action c (Option Fault)
  delete_restore restore = remove_volume_restore restore >>= contents_removed restore

  -- A conflict counts as no error: the update that caused it brings the restore back.
  unless_conflict : Option Fault → Option Fault
  unless_conflict none = none
  unless_conflict (some (raised e)) = if is_conflict e then none else some (raised e)
  unless_conflict (some nil_pointer) = some nil_pointer
  unless_conflict (some stack_overflow) = some stack_overflow

  sync_or_delete : Restore → Action c (Option Fault)
  sync_or_delete restore =
      if restore.deleted
      then delete_restore restore
      else sync_restore ix c stack restore >>= λ fault. pure (unless_conflict fault)

  -- Each call has its own context, with an empty cache of the backup and none of the restore.
  in_context : Action c (Option Fault) → Action c (Option Fault)
  in_context act s = act (record s { backup_objects = empty; resolve_objects = none })

  -- An error of the cache is logged; the restore then counts as old.
  process_if_new : Restore → Result Bool → Action c (Option Fault)
  process_if_new restore (ok true) = in_context (sync_or_delete restore)
  process_if_new restore (ok false) = pure none
  process_if_new restore (err e) = pure none

  process_found : Lookup Restore → Action c (Option Fault)
  process_found (not_found e) s = (none, s)
  process_found (lookup_error e) s = (some (raised e), s)
  process_found (found restore) s =
      let (processed, result) = store_revision_update object s.processed restore in
      process_if_new restore result (record s { processed = processed })

  process_key : Result String → Action c (Option Fault)
  process_key (err e) = pure (some (raised e))
  process_key (ok name) = ask (get_restore name) >>= process_found

  pub process_queue : String → Action c (Option Fault)
  process_queue key = process_key (split_key key)
