-- ===== src/Backup/Updaters/Writes.antt =====
-- The writes of a backup keep any place in the order.
use native.Mathlib.Nat.{le_refl}
use kahu.Api.{Backup, BackupStatus}
use kahu.Backup.Cluster.{Cluster, EventType}
use kahu.Backup.Status.{draft_status}
use kahu.Backup.Updaters.{
  Returned, revise, update_backup_status, update_backup_status_with_event, annotate_backup,
  write_status, report, annotate_patch, annotate_merged,
}
use kahu.Backup.Order.{start, write, Keeps, Keeps-bind}
use kahu.Base.{
  ℕ, String, refl, inl, inr, none, some, ◌==◌, Bool-cases, Option-cases, Result, ok, err, at_key,
}

module _ (c : Cluster) (n : ℕ) where
  open c use {World, merge_patch, send_patch}

  write_status-Keeps : (backup : Backup) → Keeps n n (write_status c backup)
  unfolding write_status revise
  write_status-Keeps backup s = write (start (le_refl n)) refl

  pub update_backup_status-Keeps :
      (backup : Backup) (status : BackupStatus) → Keeps n n (update_backup_status c backup status)
  unfolding update_backup_status
  update_backup_status-Keeps backup status =
      elim (Bool-cases (draft_status backup.status status).dirty) [
        | inl t ↦ rw t (write_status-Keeps _)
        | inr f ↦ rw f (λ s. start (le_refl n))
      ]

  report-Keeps :
      (backup : Backup) (t : EventType) (reason : String) (r : Returned)
      → Keeps n n (report c backup t reason r)
  unfolding report
  report-Keeps backup t reason (updated, some e) = λ s. start (le_refl n)
  report-Keeps backup t reason (updated, none) =
      elim (Bool-cases (updated.resource_version == backup.resource_version)) [
        | inl same ↦ rw same (λ s. start (le_refl n))
        | inr moved ↦ rw moved (λ s. start (le_refl n))
      ]

  pub update_with_event-Keeps :
      (backup : Backup) (status : BackupStatus) (t : EventType) (reason : String)
      → Keeps n n (update_backup_status_with_event c backup status t reason)
  unfolding update_backup_status_with_event
  update_with_event-Keeps backup status t reason =
      Keeps-bind n (update_backup_status c backup status) (report c backup t reason)
        (update_backup_status-Keeps backup status) (report-Keeps backup t reason)

  annotate_merged-Keeps :
      (backup clone : Backup) (r : Result c.Patch) → Keeps n n (annotate_merged c backup clone r)
  unfolding annotate_merged
  annotate_merged-Keeps backup clone (err e) s = start (le_refl n)
  annotate_merged-Keeps backup clone (ok patch) s = write (start (le_refl n)) refl

  pub annotate_backup-Keeps :
      (annotation : String) (backup : Backup) → Keeps n n (annotate_backup c annotation backup)
  unfolding annotate_backup annotate_patch
  annotate_backup-Keeps annotation backup =
      elim (Option-cases (at_key backup.object_meta.annotations annotation)) [
        | inl e ↦ rw (e, annotate_backup) (annotate_merged-Keeps backup _ _)
        | inr (v, e) ↦ rw (e, annotate_backup) (λ s. start (le_refl n))
      ]
