-- ===== src/Backup/Reconcile.antt =====
-- controllers/backup/volumebackupreconciler.go: the loop that carries the outcome of the volume
-- backups over to the backup.
pub mod Outcome
mod Examples
use kahu.Api.{Backup, BackupStage, volumes, failed}
use kahu.Backup.Cluster.{
  Cluster, Action, wrote_status, wrote_metadata, Lookup, found, not_found, lookup_error, ContentRef,
  ContentPhase, call, ask, log, pure, ◌>>=◌, ◌>>◌,
}
use kahu.Backup.Volumes.{has_annotation, ann_volume_backup_completed}
use kahu.Base.{
  String, Bool, true, false, not, ◌||◌, Option, none, some, List, [], ◌∷◌, if◌then◌else◌, Error,
  wrap, Result, ok, err, put,
}

abbrev pub ann_volume_backup_delete_completed : String
ann_volume_backup_delete_completed = "kahu.io/volume-backup-delete-completed"

pub is_failed : ContentRef → Bool
is_failed v = elim v.phase [ ContentPhase.failed ↦ true | _ ↦ false ]

pub is_completed : ContentRef → Bool
is_completed v = elim v.phase [ ContentPhase.completed ↦ true | _ ↦ false ]

-- What the loop over the contents ends with. It stops at the first content that is not completed.
pub data Verdict : Type 0 where
  all_done some_pending one_failed : Verdict

pub scan : List ContentRef → Verdict
scan [] = all_done
scan (v ∷ vs) =
    let rest = scan vs in
    if is_failed v then one_failed else if not (is_completed v) then some_pending else rest

in_volumes : BackupStage → Bool
in_volumes volumes = true
in_volumes _ = false

is_reconcile_required : Backup → Bool
is_reconcile_required backup =
    not (not (in_volumes backup.status.stage) || has_annotation backup ann_volume_backup_completed)

-- `isVolumeBackupContentDeleted`. With an error the client returns an empty list, so the test of
-- the list's length answers before the error is looked at.
is_content_deleted : Result (List ContentRef) → Bool
is_content_deleted (ok []) = true
is_content_deleted (ok (v ∷ vs)) = false
is_content_deleted (err e) = true

module _ (c : Cluster) where
  open c use {
    World, Patch, merge_patch, send_patch, send_status, get_backup, list_backups, list_contents,
  }

  annotate_merged : Backup → Backup → Result Patch → Action World (Option Error)
  annotate_merged backup clone (err e) = pure (some e)
  annotate_merged backup clone (ok patch) = do
    log (wrote_metadata clone)
    _ ← call (send_patch backup.name patch)
    pure none

  annotate_found : String → Backup → Action World (Option Error)
  annotate_found annotation backup =
      if has_annotation backup annotation
      then pure none
      else let meta = backup.object_meta in
        let annotated = record meta { annotations = put meta.annotations annotation "true" } in
        let clone = record backup { object_meta = annotated } in
        annotate_merged backup clone (merge_patch backup clone)

  annotate_listed : String → Lookup Backup → Action World (Option Error)
  annotate_listed annotation (found backup) = annotate_found annotation backup
  annotate_listed annotation (not_found e) = pure (some (wrap e "Unable to update backup"))
  annotate_listed annotation (lookup_error e) = pure (some (wrap e "Unable to update backup"))

  -- `annotateBackup` of the reconciler reads the backup anew.
  pub annotate_by_name : String → String → Action World (Option Error)
  annotate_by_name annotation name = ask (get_backup name) >>= annotate_listed annotation

  update_backup_failure : Backup → Action World (Backup × Option Error)
  update_backup_failure backup =
      let clone = record backup { status = record (backup.status) { state = failed } } in
      log (wrote_status clone) >> call (send_status clone)

  act_on : Backup → Verdict → Action World (Unit {0})
  act_on backup one_failed = update_backup_failure backup >>= λ _. pure tt
  act_on backup some_pending = pure tt
  act_on backup all_done = annotate_by_name ann_volume_backup_completed backup.name >>= λ _. pure tt

  reconcile_contents : Backup → Result (List ContentRef) → Action World (Unit {0})
  reconcile_contents backup (err e) = pure tt
  reconcile_contents backup (ok []) = pure tt
  reconcile_contents backup (ok (v ∷ vs)) = act_on backup (scan (v ∷ vs))

  reconcile_volumes : Backup → Action World (Unit {0})
  reconcile_volumes backup =
      if not (is_reconcile_required backup)
      then pure tt
      else call (list_contents backup.name) >>= reconcile_contents backup

  deleted_listed : Backup → Result (List ContentRef) → Action World (Unit {0})
  deleted_listed backup contents =
      if is_content_deleted contents
      then annotate_by_name ann_volume_backup_delete_completed backup.name >>= (λ _. pure tt)
      else reconcile_volumes backup

  -- The body of the loop over the backups.
  pub reconcile_backup : Backup → Action World (Unit {0})
  reconcile_backup backup =
      if backup.deleted
      then call (list_contents backup.name) >>= deleted_listed backup
      else reconcile_volumes backup

  reconcile_all : List Backup → Action World (Unit {0})
  reconcile_all [] = pure tt
  reconcile_all (b ∷ bs) = reconcile_backup b >> reconcile_all bs

  reconcile_listed : Result (List Backup) → Action World (Unit {0})
  reconcile_listed (err e) = pure tt
  reconcile_listed (ok backups) = reconcile_all backups

  pub reconcile : Action World (Unit {0})
  reconcile = ask list_backups >>= reconcile_listed
