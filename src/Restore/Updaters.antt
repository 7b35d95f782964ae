-- ===== src/Restore/Updaters.antt =====
-- `patchRestore`, `updateRestoreStatus`, `updateRestoreState` and `updateRestoreStage` of
-- controllers/restore/restorecontroller.go, and `annotateRestore` of volumerestore.go.
pub mod Writes
pub mod Kept
use kahu.Utils.Store.Revision.{store_revision_update}
use kahu.Restore.Objects.{Restore, RestoreStage, RestoreState}
use kahu.Restore.Cluster.{Cluster, Action, Fault, raised, wrote_status, wrote_metadata, call, log}
use kahu.Base.{
  String, Option, none, some, Error, wrap, Result, ok, err, at_key, put, ◌>>=◌, ◌>>◌, pure,
}

-- `(*Restore, error)`. Where a nil restore comes with the error, the first part is not read.
abbrev pub Returned : Type 0
Returned = Restore × Option Fault

abbrev pub with_state : RestoreState → Restore → Restore
with_state state restore = record restore { status = record (restore.status) { state = state } }

abbrev pub with_stage : RestoreStage → Restore → Restore
with_stage stage restore = record restore { status = record (restore.status) { stage = stage } }

module _ {Cache : Type 0} (c : Cluster Cache) where
  open c use {World, Patch, object, merge_patch, send_patch, send_status}

  -- `StoreRevisionUpdate` on the cache, for its error alone.
  unfoldable pub revise : Restore → Action c (Option Error)
  revise restore s =
      let (processed, result) = store_revision_update object s.processed restore in
      (elim result [ ok _ ↦ none | err e ↦ some e ], record s { processed = processed })

  unfoldable pub revised : Restore → Option Error → Returned
  revised restore none = (restore, none)
  revised restore (some e) =
      (restore, some (raised (wrap e "Failed to updated processed restore cache")))

  unfoldable pub status_sent : Restore → Restore × Option Error → Action c Returned
  status_sent restore (updated, some e) = pure (restore, some (raised e))
  status_sent restore (updated, none) = do failed ← revise updated; pure (revised updated failed)

  unfoldable pub update_restore_status : Restore → Action c Returned
  update_restore_status restore =
      log (wrote_status restore) >> (call (send_status restore) >>= status_sent restore)

  unfoldable pub update_restore_state : Restore → RestoreState → Action c Returned
  update_restore_state restore state = update_restore_status (with_state state restore)

  unfoldable pub update_restore_stage : Restore → RestoreStage → Action c Returned
  update_restore_stage restore stage = update_restore_status (with_stage stage restore)

  unfoldable pub patch_sent : Restore → Restore × Option Error → Action c Returned
  patch_sent restore (updated, some e) =
      pure (restore, some (raised (wrap e "error patching backup")))
  patch_sent restore (updated, none) = do failed ← revise updated; pure (revised updated failed)

  unfoldable pub patch_merged : Restore → Restore → Result Patch → Action c Returned
  patch_merged old_restore updated (err e) = pure (old_restore, some (raised e))
  patch_merged old_restore updated (ok patch) =
      log (wrote_metadata updated)
      >> (call (send_patch old_restore.name patch) >>= patch_sent old_restore)

  unfoldable pub patch_restore : Restore → Restore → Action c Returned
  patch_restore old_restore updated =
      patch_merged old_restore updated (merge_patch old_restore updated)

  unfoldable pub annotate_unless : String → String → Restore → Option String → Action c Returned
  annotate_unless annotation value restore (some present) = pure (restore, none)
  annotate_unless annotation value restore none =
      let meta = restore.object_meta in
      let annotated = record meta { annotations = put meta.annotations annotation value } in
      patch_restore restore (record restore { object_meta = annotated })

  unfoldable pub annotate_restore : String → String → Restore → Action c Returned
  annotate_restore annotation value restore =
      annotate_unless annotation value restore (at_key restore.object_meta.annotations annotation)
