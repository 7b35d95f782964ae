-- ===== src/Backup/Volumes/Order.antt =====
-- The volume stage does at most its own work.
use native.Mathlib.Nat.{le_refl}
use kahu.Api.{Backup, new, failed, completed, same_state}
use kahu.Backup.Cluster.{Cluster, warning}
use kahu.Backup.Order.{InOrder-trans, step, start, Keeps, Keeps-bind, InOrder-widen}
use kahu.Backup.Updaters.{Returned}
use kahu.Backup.Updaters.Writes.{update_with_event-Keeps, annotate_backup-Keeps}
use kahu.Backup.Volumes.{
  backed_up, waited, applied, snapshotted, grouped, get_volumes, volumes_invalid, apply_volumes,
  backup_claims, of_state, process_volume_backup, volumes_processed, volumes_synced,
  sync_volume_backup, has_annotation, ann_volume_backup_completed,
}
use kahu.Base.{
  ℕ, refl, inl, inr, Option, none, some, List, [], ◌∷◌, arith, Bool-cases, Error, Result, ok, err,
}

module _ (c : Cluster) where
  open c use {World, Claim, Group, Snapshotter, Backupper, sync_resources}

  backed_up-Keeps :
      (n : ℕ) (backup : Backup) (r : Result Backupper) → Keeps n n (backed_up c backup r)
  unfolding backed_up
  backed_up-Keeps n backup (err e) s = start (le_refl n)
  backed_up-Keeps n backup (ok backupper) s = start (le_refl n)

  waited-Keeps :
      (n : ℕ) (backup : Backup) (snapshotter : Snapshotter) (e : Option Error)
      → Keeps n n (waited c backup snapshotter e)
  unfolding waited
  waited-Keeps n backup snapshotter (some e) s = start (le_refl n)
  waited-Keeps n backup snapshotter none s = backed_up-Keeps n backup _ _

  applied-Keeps :
      (n : ℕ) (backup : Backup) (snapshotter : Snapshotter) (e : Option Error)
      → Keeps n n (applied c backup snapshotter e)
  unfolding applied
  applied-Keeps n backup snapshotter (some e) s = start (le_refl n)
  applied-Keeps n backup snapshotter none s = waited-Keeps n backup snapshotter _ _

  snapshotted-Keeps :
      (n : ℕ) (backup : Backup) (r : Result Snapshotter) → Keeps n n (snapshotted c backup r)
  unfolding snapshotted
  snapshotted-Keeps n backup (err e) s = start (le_refl n)
  snapshotted-Keeps n backup (ok snapshotter) s = applied-Keeps n backup snapshotter _ _

  grouped-Keeps : (n : ℕ) (backup : Backup) (r : Result Group) → Keeps n n (grouped c backup r)
  unfolding grouped
  grouped-Keeps n backup (err e) s = start (le_refl n)
  grouped-Keeps n backup (ok group) s = snapshotted-Keeps n backup _ _

  apply_volumes-Keeps :
      (backup : Backup) (claims : List Claim) → Keeps 2 3 (apply_volumes c backup claims)
  unfolding apply_volumes
  apply_volumes-Keeps backup claims s =
      InOrder-trans (step (start (le_refl 2)) refl (le_refl 2) (le_refl 3))
        (grouped-Keeps 3 backup _ _)

  volumes_invalid-Keeps :
      (n : ℕ) (backup : Backup) (e : Error) → Keeps n n (volumes_invalid c backup e)
  unfolding volumes_invalid
  volumes_invalid-Keeps n backup e =
      update_with_event-Keeps c n backup (of_state failed) warning "VolumeBackupFailed"

  backup_claims-Keeps :
      (backup : Backup) (r : Result (List Claim)) → Keeps 2 3 (backup_claims c backup r)
  unfolding backup_claims
  backup_claims-Keeps backup (err e) =
      λ s. InOrder-widen (volumes_invalid-Keeps 2 backup e s) (omega arith)
  backup_claims-Keeps backup (ok []) = λ s.
      InOrder-widen (annotate_backup-Keeps c 2 ann_volume_backup_completed backup s) (omega arith)
  backup_claims-Keeps backup (ok (claim ∷ claims)) = apply_volumes-Keeps backup (claim ∷ claims)

  process_volume_backup-Keeps : (backup : Backup) → Keeps 2 3 (process_volume_backup c backup)
  unfolding process_volume_backup get_volumes
  process_volume_backup-Keeps backup = λ s. backup_claims-Keeps backup _ s

  volumes_processed-Keeps : (r : Returned) → Keeps 3 3 (volumes_processed c r)
  unfolding volumes_processed
  volumes_processed-Keeps (backup, some e) = λ s. start (le_refl 3)
  volumes_processed-Keeps (backup, none) = update_with_event-Keeps c 3 backup _ _ _

  volumes_synced-Keeps : (backup : Backup) (r : Returned) → Keeps 2 3 (volumes_synced c backup r)
  unfolding volumes_synced
  volumes_synced-Keeps backup (new_backup, some e) = λ s. start (omega arith)
  volumes_synced-Keeps backup (new_backup, none) =
      Keeps-bind 3 (process_volume_backup c new_backup) (volumes_processed c)
        (process_volume_backup-Keeps new_backup) volumes_processed-Keeps

  pub sync_volume_backup-Keeps : (backup : Backup) → Keeps 2 3 (sync_volume_backup c backup)
  unfolding sync_volume_backup
  sync_volume_backup-Keeps backup = elim (Bool-cases (same_state backup.status.state completed)) [
    | inl t ↦ rw t (λ s. start (omega arith))
    | inr f ↦ rw f (elim (Bool-cases (has_annotation backup ann_volume_backup_completed)) [
      | inl a ↦ rw a (λ s. InOrder-widen (update_with_event-Keeps c 2 backup _ _ _ s) (omega arith))
      | inr b ↦ rw b (elim (Bool-cases (same_state backup.status.state new)) [
        | inl n ↦ rw n (λ s. volumes_synced-Keeps backup _ _)
        | inr m ↦ rw m (λ s. start (omega arith))
      ])
    ])
  ]
