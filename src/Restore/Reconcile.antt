-- ===== src/Restore/Reconcile.antt =====
-- controllers/restore/volumerestorereconciler.go: the loop that carries the outcome of the volume
-- restores over to the restore.
pub mod Outcome
use kahu.Backup.Cluster.{Lookup, found, not_found, lookup_error}
use kahu.Restore.Objects.{
  Restore, VolumeRestoreContent, phase_completed, phase_failed, failed, is_volumes_stage,
}
use kahu.Restore.Cluster.{Cluster, Action, wrote_status, wrote_metadata, call, ask, log}
use kahu.Restore.Updaters.{with_state}
use kahu.Restore.Volumes.{has_annotation, ann_volume_restore_completed}
use kahu.Base.{
  String, Bool, true, false, not, ◌||◌, Option, none, some, List, [], ◌∷◌, if◌then◌else◌, Error,
  wrap, Result, ok, err, put, ◌>>=◌, ◌>>◌, pure,
}

abbrev pub ann_volume_restore_delete_completed : String
ann_volume_restore_delete_completed = "kahu.io/volume-restore-delete-completed"

pub is_failed : VolumeRestoreContent → Bool
is_failed v = elim v.phase [ phase_failed ↦ true | _ ↦ false ]

pub is_completed : VolumeRestoreContent → Bool
is_completed v = elim v.phase [ phase_completed ↦ true | _ ↦ false ]

-- What the loop over the contents ends with. It stops at the first content that is not completed.
pub data Verdict : Type 0 where
  all_done some_pending one_failed : Verdict

pub scan : List VolumeRestoreContent → Verdict
scan [] = all_done
scan (v ∷ vs) =
    let rest = scan vs in
    if is_failed v then one_failed else if not (is_completed v) then some_pending else rest

is_reconcile_required : Restore → Bool
is_reconcile_required restore = not (
    not (is_volumes_stage restore.status.stage)
    || has_annotation restore ann_volume_restore_completed)

-- `isVolumeRestoreContentDeleted`. With an error the client returns an empty list, so the test of
-- the list's length answers before the error is looked at.
is_content_deleted : Result (List VolumeRestoreContent) → Bool
is_content_deleted (ok []) = true
is_content_deleted (ok (v ∷ vs)) = false
is_content_deleted (err e) = true

module _ {Cache : Type 0} (c : Cluster Cache) where
  open c use {
    World, Patch, merge_patch, send_patch, send_status, get_restore, list_restores, list_contents,
  }

  annotate_merged : Restore → Restore → Result Patch → Action c (Option Error)
  annotate_merged restore clone (err e) = pure (some e)
  annotate_merged restore clone (ok patch) = do
    log (wrote_metadata clone)
    _ ← call (send_patch restore.name patch)
    pure none

  annotate_found : String → Restore → Action c (Option Error)
  annotate_found annotation restore =
      if has_annotation restore annotation
      then pure none
      else let meta = restore.object_meta in
        let annotated = record meta { annotations = put meta.annotations annotation "true" } in
        let clone = record restore { object_meta = annotated } in
        annotate_merged restore clone (merge_patch restore clone)

  annotate_listed : String → Lookup Restore → Action c (Option Error)
  annotate_listed annotation (found restore) = annotate_found annotation restore
  annotate_listed annotation (not_found e) = pure (some (wrap e "Unable to update restore"))
  annotate_listed annotation (lookup_error e) = pure (some (wrap e "Unable to update restore"))

  -- `annotateRestore` of the reconciler reads the restore anew.
  pub annotate_by_name : String → String → Action c (Option Error)
  annotate_by_name annotation name = ask (get_restore name) >>= annotate_listed annotation

  update_restore_failure : Restore → Action c (Restore × Option Error)
  update_restore_failure restore =
      let clone = with_state failed restore in log (wrote_status clone) >> call (send_status clone)

  act_on : Restore → Verdict → Action c (Unit {0})
  act_on restore one_failed = update_restore_failure restore >>= λ _. pure tt
  act_on restore some_pending = pure tt
  act_on restore all_done =
      annotate_by_name ann_volume_restore_completed restore.name >>= λ _. pure tt

  reconcile_contents : Restore → Result (List VolumeRestoreContent) → Action c (Unit {0})
  reconcile_contents restore (err e) = pure tt
  reconcile_contents restore (ok []) = pure tt
  reconcile_contents restore (ok (v ∷ vs)) = act_on restore (scan (v ∷ vs))

  reconcile_volumes : Restore → Action c (Unit {0})
  reconcile_volumes restore =
      if not (is_reconcile_required restore)
      then pure tt
      else call (list_contents restore.name) >>= reconcile_contents restore

  deleted_listed : Restore → Result (List VolumeRestoreContent) → Action c (Unit {0})
  deleted_listed restore contents =
      if is_content_deleted contents
      then annotate_by_name ann_volume_restore_delete_completed restore.name >>= (λ _. pure tt)
      else reconcile_volumes restore

  -- The body of the loop over the restores.
  pub reconcile_restore : Restore → Action c (Unit {0})
  reconcile_restore restore =
      if restore.deleted
      then call (list_contents restore.name) >>= deleted_listed restore
      else reconcile_volumes restore

  reconcile_all : List Restore → Action c (Unit {0})
  reconcile_all [] = pure tt
  reconcile_all (r ∷ rs) = reconcile_restore r >> reconcile_all rs

  reconcile_listed : Result (List Restore) → Action c (Unit {0})
  reconcile_listed (err e) = pure tt
  reconcile_listed (ok restores) = reconcile_all restores

  pub reconcile : Action c (Unit {0})
  reconcile = ask list_restores >>= reconcile_listed
