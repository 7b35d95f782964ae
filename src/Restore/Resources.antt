-- ===== src/Restore/Resources.antt =====
-- `syncMetadataRestore`, `applyCRD` and `applyIndexedResource` of
-- controllers/restore/metadatarestore.go: the resource stage of a restore.
pub mod Untimed
use Prim.Native.String.{◌++◌ as append}
use kahu.Restore.Objects.{
  Restore, completed, processing, post_hook, is_completed_state, is_finished_stage,
}
use kahu.Restore.Filters.{Object, Indexer, is_pointer}
use kahu.Restore.Cluster.{
  Cluster, Action, Fault, raised, nil_pointer, stack_overflow, ran_hooks, call, log,
}
use kahu.Restore.Updaters.{
  Returned, with_state, update_restore_status, update_restore_state, update_restore_stage,
}
use kahu.Restore.Populate.{failed_for}
use kahu.Restore.Apply.{apply_resource}
use kahu.Restore.Priority.{prioritise_resources}
use kahu.Base.{
  String, not, ◌&&◌, Option, none, some, List, [], ◌∷◌, if◌then◌else◌, keep, contains, Error,
  message, text_of, Result, ok, err, ◌>>=◌, ◌>>◌, pure,
}

-- controllers/restore/constants.go
abbrev crd_name : String
crd_name = "CustomResourceDefinition"

abbrev exclude_restore_resources : List String
exclude_restore_resources =
    "CustomResourceDefinition" ∷ "VolumeBackupContent" ∷ "PersistentVolume"
    ∷ "PersistentVolumeClaim" ∷ []

-- The objects to apply: those behind a pointer whose kind is not exempted.
to_apply : List Object → List Object
to_apply os = keep (λ o. is_pointer o.form && not (contains exclude_restore_resources o.kind)) os

module _ (ix : Indexer) (c : Cluster ix.Cache) where
  open ix use {Cache, list, by_kind}
  open c use {World, Hooks, collect_hook_pods, wait_hooks, run_hooks}

  and_next : Action c (Option Fault) → Option Fault → Action c (Option Fault)
  and_next rest (some fault) = pure (some fault)
  and_next rest none = rest

  pub apply_all : Restore → List Object → Action c (Option Fault)
  apply_all restore [] = pure none
  apply_all restore (o ∷ os) = apply_resource c o (some restore) >>= and_next (apply_all restore os)

  crds_listed : Restore → Result (List Object) → Action c (Option Fault)
  crds_listed restore (err e) = pure (some (raised e))
  crds_listed restore (ok os) = apply_all restore (keep (λ o. is_pointer o.form) os)

  pub apply_crd : Cache → Restore → Action c (Option Fault)
  apply_crd st restore = crds_listed restore (by_kind crd_name st)

  -- An error of this update is logged.
  hooks_run : Restore → Option Error → Action c Returned
  hooks_run restore (some e) = pure (restore, some (raised e))
  hooks_run restore none = do
    updated ← update_restore_state c restore completed
    pure (updated.0, none)

  hooks_waited : Hooks → Restore → List Error → Action c Returned
  hooks_waited hooks restore (e ∷ es) =
      pure (restore, some (raised (message "failure while executing post exec hooks")))
  hooks_waited hooks restore [] = log ran_hooks >> (call (run_hooks hooks) >>= hooks_run restore)

  -- After the objects: two updates whose errors are logged, and the hooks.
  objects_applied : Hooks → Restore → Option Fault → Action c Returned
  objects_applied hooks restore (some fault) = pure (restore, some fault)
  objects_applied hooks restore none = do
    updated ← update_restore_state c restore completed
    staged ← update_restore_stage c (with_state processing updated.0) post_hook
    call wait_hooks >>= hooks_waited hooks staged.0

  hooks_collected : Cache → Restore → Result Hooks → Action c Returned
  hooks_collected st restore (err e) = pure (restore, some (raised e))
  hooks_collected st restore (ok hooks) =
      apply_all restore (prioritise_resources (to_apply (list st)))
      >>= objects_applied hooks restore

  pub apply_indexed_resource : Cache → Restore → Action c Returned
  apply_indexed_resource st restore =
      call (collect_hook_pods restore) >>= hooks_collected st restore

  -- An error becomes the failure of the restore, and a crash does not.
  fail_restore : String → Restore → Fault → Action c Returned
  fail_restore reason restore (raised e) =
      update_restore_status c (failed_for (append reason (text_of e)) restore)
  fail_restore reason restore nil_pointer = pure (restore, some nil_pointer)
  fail_restore reason restore stack_overflow = pure (restore, some stack_overflow)

  resources_applied : Returned → Action c Returned
  resources_applied (restore, some fault) = fail_restore "Failed to apply resources. " restore fault
  resources_applied (restore, none) = update_restore_state c restore completed

  crds_applied : Cache → Restore → Option Fault → Action c Returned
  crds_applied st restore (some fault) =
      fail_restore "Failed to apply CRD resources. " restore fault
  crds_applied st restore none = apply_indexed_resource st restore >>= resources_applied

  pub sync_metadata_restore : Restore → Cache → Action c Returned
  sync_metadata_restore restore st =
      if is_finished_stage restore.status.stage && is_completed_state restore.status.state
      then pure (restore, none)
      else apply_crd st restore >>= crds_applied st restore
