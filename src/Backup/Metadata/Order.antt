-- ===== src/Backup/Metadata/Order.antt =====
-- The resource stage does at most its own work.
use native.Mathlib.Nat.{le_refl}
use kahu.Api.{Backup, failed, completed, same_state}
use kahu.Backup.Cluster.{
  Cluster, Lookup, found, not_found, lookup_error, BackupLocation, Provider, warning,
}
use kahu.Backup.Order.{InOrder-widen, InOrder-trans, start, step, Keeps, Keeps-bind}
use kahu.Backup.Updaters.Writes.{update_backup_status-Keeps, update_with_event-Keeps}
use kahu.Backup.Volumes.{of_state}
use kahu.Backup.Metadata.{
  provider_client, fetch_meta_service_client, resources_failed, close_run, stream_resources,
  with_client, send_resources, process_metadata_backup, location_client, provider_service,
}
use kahu.Base.{
  ℕ, String, refl, inl, inr, Option, none, some, arith, Bool-cases, Option-cases, Error, Result, ok,
  err, at_key,
}

module _ (c : Cluster) where
  open c use {World}

  provider_client-Keeps : (n : ℕ) (r : Result Provider) → Keeps n n (provider_client c r)
  unfolding provider_client
  provider_client-Keeps n (err e) = λ s. start (le_refl n)
  provider_client-Keeps n (ok provider) = elim (Bool-cases provider.metadata_type) [
    | inl t ↦ rw t (elim (Option-cases (at_key provider.annotations provider_service)) [
      | inl e ↦ rw e (λ s. start (le_refl n))
      | inr (v, e) ↦ rw e (λ s. start (le_refl n))
    ])
    | inr f ↦ rw f (λ s. start (le_refl n))
  ]

  location_client-Keeps : (n : ℕ) (r : Result BackupLocation) → Keeps n n (location_client c r)
  unfolding location_client
  location_client-Keeps n (err e) s = start (le_refl n)
  location_client-Keeps n (ok l) s = provider_client-Keeps n _ s

  fetch_meta_service_client-Keeps :
      (n : ℕ) (location : String) → Keeps n n (fetch_meta_service_client c location)
  unfolding fetch_meta_service_client
  fetch_meta_service_client-Keeps n location s = location_client-Keeps n _ s

  resources_failed-Keeps : (n : ℕ) (backup : Backup) → Keeps n n (resources_failed c backup)
  unfolding resources_failed
  resources_failed-Keeps n backup =
      update_with_event-Keeps c n backup (of_state failed) warning "ResourceBackupFailed"

  close_run-Keeps :
      (n : ℕ) (backup : Backup) (ran e : Option Error) → Keeps n n (close_run c backup ran e)
  unfolding close_run
  close_run-Keeps n backup ran (some e) = resources_failed-Keeps n backup
  close_run-Keeps n backup (some e) none = update_backup_status-Keeps c n backup (of_state failed)
  close_run-Keeps n backup none none = update_backup_status-Keeps c n backup (of_state completed)

  stream_resources-Keeps :
      (backup : Backup) (e : Option Error) → Keeps 4 5 (stream_resources c backup e)
  unfolding stream_resources
  stream_resources-Keeps backup (some e) s =
      InOrder-widen (resources_failed-Keeps 4 backup s) (omega arith)
  stream_resources-Keeps backup none s =
      InOrder-trans (step (start (le_refl 4)) refl (le_refl 4) (le_refl 5))
        (close_run-Keeps 5 backup _ _ _)

  with_client-Keeps : (backup : Backup) (r : Result String) → Keeps 4 5 (with_client c backup r)
  unfolding with_client
  with_client-Keeps backup (err e) s =
      InOrder-widen (resources_failed-Keeps 4 backup s) (omega arith)
  with_client-Keeps backup (ok service) s = stream_resources-Keeps backup _ _

  send_resources-Keeps :
      (backup : Backup) (l : Lookup BackupLocation) → Keeps 4 5 (send_resources c backup l)
  unfolding send_resources
  send_resources-Keeps backup (found location) =
      Keeps-bind 4 (fetch_meta_service_client c backup.spec.metadata_location)
        (with_client c backup) (fetch_meta_service_client-Keeps 4 backup.spec.metadata_location)
        (with_client-Keeps backup)
  send_resources-Keeps backup (not_found e) =
      λ s. InOrder-widen (update_backup_status-Keeps c 4 backup (of_state failed) s) (omega arith)
  send_resources-Keeps backup (lookup_error e) =
      λ s. InOrder-widen (update_backup_status-Keeps c 4 backup (of_state failed) s) (omega arith)

  pub process_metadata_backup-Keeps :
      (backup : Backup) → Keeps 4 5 (process_metadata_backup c backup)
  unfolding process_metadata_backup
  process_metadata_backup-Keeps backup =
      elim (Bool-cases (same_state backup.status.state completed)) [
        | inl t ↦ rw t (λ s. start (omega arith))
        | inr f ↦ rw f (λ s. send_resources-Keeps _ _ _)
      ]
