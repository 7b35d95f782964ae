-- ===== src/Backup/Volumes.antt =====
-- controllers/backup/backupvolume.go and `syncVolumeBackup` of backupcontroller.go.
pub mod Order
pub mod Removal
mod Examples
use kahu.Api.{
  Backup, BackupState, BackupStatus, empty_status, new, failed, processing, completed, same_state,
}
use kahu.Backup.Cluster.{
  Cluster, Action, backed_up_volumes, deleted_content, ContentRef, normal, warning, call, ask, log,
  pure, ◌>>=◌, ◌>>◌,
}
use kahu.Backup.Updaters.{Returned, update_backup_status_with_event, annotate_backup}
use kahu.Base.{
  String, Bool, true, false, not, Option, none, some, List, [], ◌∷◌, if◌then◌else◌, Error, wrap,
  Result, ok, err, at_key, pure,
}

-- controllers/backup/constants.go
abbrev pub ann_volume_backup_completed : String
ann_volume_backup_completed = "kahu.io/volume-backup-completed"

-- `kahuapi.BackupStatus{State: s}`
abbrev pub of_state : BackupState → BackupStatus
of_state s = record empty_status { state = s }

pub has_annotation : Backup → String → Bool
has_annotation backup annotation = elim (at_key backup.object_meta.annotations annotation) [
  | none ↦ false
  | some _ ↦ true
]

module _ (c : Cluster) where
  open c use {
    World, Object, Claim, Group, Snapshotter, Backupper, claims_of, to_claim, group_by_claims,
    snapshot_by_group, apply_snapshot, wait_snapshot, backup_by_snapshot, apply_backup,
    list_contents, delete_content, sync_resources,
  }

  -- The loop of `getVolumes`.
  to_claims : List Object → Result (List Claim)
  to_claims [] = ok []
  to_claims (o ∷ os) =
      let rest = to_claims os in
      elim (to_claim o) [
        | err e ↦ err e
        | ok claim ↦ elim rest [ err e ↦ err e | ok claims ↦ ok (claim ∷ claims) ]
      ]

  get_volumes : Backup → Action World (Result (List Claim))
  get_volumes backup = ask (λ w. to_claims (claims_of backup w))

  volumes_invalid : Backup → Error → Action World Returned
  volumes_invalid backup e = do
    updated ←
        update_backup_status_with_event c backup (of_state failed) warning "VolumeBackupFailed"
    pure (
      backup,
      elim updated.1 [ some e' ↦ some (wrap e' "Volume backup validation failed") | none ↦ some e ],
    )

  -- The end of `processVolumeBackup`, from its last call to its first. Each step takes what the
  -- call before it returned, and ends the handler on an error.
  backed_up : Backup → Result Backupper → Action World Returned
  backed_up backup (err e) = pure (backup, some e)
  backed_up backup (ok backupper) = do
    e ← call (apply_backup backupper backup.name)
    pure (backup, e)

  waited : Backup → Snapshotter → Option Error → Action World Returned
  waited backup snapshotter (some e) = pure (backup, some e)
  waited backup snapshotter none = call (backup_by_snapshot snapshotter) >>= backed_up backup

  applied : Backup → Snapshotter → Option Error → Action World Returned
  applied backup snapshotter (some e) = pure (backup, some e)
  applied backup snapshotter none =
      call (wait_snapshot snapshotter backup.name) >>= waited backup snapshotter

  snapshotted : Backup → Result Snapshotter → Action World Returned
  snapshotted backup (err e) = pure (backup, some e)
  snapshotted backup (ok snapshotter) =
      call (apply_snapshot snapshotter) >>= applied backup snapshotter

  grouped : Backup → Result Group → Action World Returned
  grouped backup (err e) = pure (backup, some e)
  grouped backup (ok group) = call (snapshot_by_group group) >>= snapshotted backup

  apply_volumes : Backup → List Claim → Action World Returned
  apply_volumes backup claims =
      log backed_up_volumes >> (call (group_by_claims backup.name claims) >>= grouped backup)

  backup_claims : Backup → Result (List Claim) → Action World Returned
  backup_claims backup (err e) = volumes_invalid backup e
  backup_claims backup (ok []) = annotate_backup c ann_volume_backup_completed backup
  backup_claims backup (ok (claim ∷ claims)) = apply_volumes backup (claim ∷ claims)

  pub process_volume_backup : Backup → Action World Returned
  process_volume_backup backup = get_volumes backup >>= backup_claims backup

  -- The part of `syncVolumeBackup` for a fresh volume backup.
  volumes_processed : Returned → Action World Returned
  volumes_processed (backup, some e) = pure (backup, some e)
  volumes_processed (backup, none) =
      update_backup_status_with_event c backup (of_state processing) normal "VolumeBackupScheduled"

  volumes_synced : Backup → Returned → Action World Returned
  volumes_synced backup (new_backup, some e) = pure (backup, some e)
  volumes_synced backup (new_backup, none) = process_volume_backup new_backup >>= volumes_processed

  pub sync_volume_backup : Backup → Action World Returned
  sync_volume_backup backup =
      if same_state backup.status.state completed
      then pure (backup, none)
      else if has_annotation backup ann_volume_backup_completed
      then update_backup_status_with_event c backup (of_state completed) normal
          "VolumeBackupSuccess"
      else if not (same_state backup.status.state new)
      then pure (backup, none)
      else call (sync_resources backup) >>= volumes_synced backup

  -- After the deletion of one content: the rest, or the end of the loop.
  unfoldable pub delete_rest :
      Action World (Option Error) → Option Error → Action World (Option Error)
  delete_rest rest none = rest
  delete_rest rest (some e) = pure (some (wrap e "Unable to delete volume backup content"))

  unfoldable pub delete_one : String → Action World (Option Error) → Action World (Option Error)
  delete_one name rest =
      log (deleted_content name) >> (call (delete_content name) >>= delete_rest rest)

  -- The loop of `removeVolumeBackup`: contents that are being deleted are left alone, and the first
  -- error ends it.
  unfoldable pub delete_contents : List ContentRef → Action World (Option Error)
  delete_contents [] = pure none
  delete_contents (v ∷ vs) =
      let rest = delete_contents vs in if v.deleting then rest else delete_one v.name rest

  unfoldable pub delete_listed : Result (List ContentRef) → Action World (Option Error)
  delete_listed (err e) = pure (some (wrap e "unable to get volume backup content list"))
  delete_listed (ok contents) = delete_contents contents

  unfoldable pub remove_volume_backup : Backup → Action World (Option Error)
  remove_volume_backup backup = call (list_contents backup.name) >>= delete_listed
