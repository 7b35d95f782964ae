-- ===== src/Backup/Metadata.antt =====
-- controllers/backup/backupmetadata.go and metaservice.go: the resource stage of a backup, and the
-- deletion of its metadata.
pub mod Gone
pub mod Order
pub mod Removal
use kahu.Base.Integer.{int_lt}
use kahu.Api.{Backup, resources, failed, completed, same_state}
use kahu.Backup.Cluster.{
  Cluster, Action, backed_up_resources, deleted_metadata, Lookup, BackupLocation, Provider, found,
  not_found, lookup_error, warning, call, ask, log, pure, ◌>>=◌, ◌>>◌,
}
use kahu.Backup.Status.{to_ordinal}
use kahu.Backup.Updaters.{Returned, update_backup_status, update_backup_status_with_event}
use kahu.Backup.Volumes.{of_state}
use kahu.Base.{
  String, not, ◌||◌, Option, none, some, [], if◌then◌else◌, Error, message, Result, ok, err, at_key,
  pure,
}

-- utils/constant.go
abbrev provider_service : String
provider_service = "kahu.io/provider-service"

unfoldable pub or_error : {A : Type 0} → Lookup A → Result A
or_error (found a) = ok a
or_error (not_found e) = err e
or_error (lookup_error e) = err e

module _ (c : Cluster) where
  open c use {
    World, get_location, get_provider, dial, open_stream, run_backup, close_stream, delete_metadata,
  }

  -- `fetchMetaServiceClient`: the service name to call, or an error.
  unfoldable pub provider_client : Result Provider → Action World (Result String)
  provider_client (err e) = pure (err e)
  provider_client (ok provider) =
      if not provider.metadata_type
      then pure (err (message "invalid metadata provider type"))
      else elim (at_key provider.annotations provider_service) [
        | none ↦ pure (err (message "failed to get metadata provider service info"))
        | some service ↦ do
          e ← call (dial service)
          pure (elim e [
            | none ↦ ok service
            | some _ ↦ err (message "failed to get metadata service client")
          ])
      ]

  unfoldable pub location_client : Result BackupLocation → Action World (Result String)
  location_client (err e) = pure (err e)
  location_client (ok backup_location) =
      ask (λ w. or_error (get_provider backup_location.provider_name w)) >>= provider_client

  unfoldable pub fetch_meta_service_client : String → Action World (Result String)
  fetch_meta_service_client location =
      ask (λ w. or_error (get_location location w)) >>= location_client

  resources_failed : Backup → Action World Returned
  resources_failed backup =
      update_backup_status_with_event c backup (of_state failed) warning "ResourceBackupFailed"

  -- The stream is closed whether or not the run failed, and its own error comes first.
  close_run : Backup → Option Error → Option Error → Action World Returned
  close_run backup ran (some e) = resources_failed backup
  close_run backup (some e) none = update_backup_status c backup (of_state failed)
  close_run backup none none = update_backup_status c backup (of_state completed)

  stream_resources : Backup → Option Error → Action World Returned
  stream_resources backup (some e) = resources_failed backup
  stream_resources backup none = do
    log backed_up_resources
    ran ← call (run_backup backup)
    call close_stream >>= close_run backup ran

  with_client : Backup → Result String → Action World Returned
  with_client backup (err e) = resources_failed backup
  with_client backup (ok service) = call (open_stream service) >>= stream_resources backup

  send_resources : Backup → Lookup BackupLocation → Action World Returned
  send_resources backup (found location) =
      fetch_meta_service_client backup.spec.metadata_location >>= with_client backup
  send_resources backup _ = update_backup_status c backup (of_state failed)

  -- The validation errors are emptied on the object that is passed on.
  pub process_metadata_backup : Backup → Action World Returned
  process_metadata_backup backup =
      if same_state backup.status.state completed
      then pure (backup, none)
      else let status = record (backup.status) { validation_errors = [] } in
        ask (get_location backup.spec.metadata_location)
        >>= send_resources (record backup { status = status })

  unfoldable pub delete_sent : String → Result String → Action World (Option Error)
  delete_sent name (err e) = pure (some e)
  delete_sent name (ok service) = do
    log (deleted_metadata name)
    e ← call (delete_metadata name)
    pure (elim e [ none ↦ none | some _ ↦ some (message "unable to delete metadata backup file") ])

  -- A failed backup, or one that never came to its resources, has no metadata to delete.
  unfoldable pub delete_metadata_backup : Backup → Action World (Option Error)
  delete_metadata_backup backup =
      if same_state backup.status.state failed
        || int_lt (to_ordinal backup.status.stage) (to_ordinal resources)
      then pure none
      else fetch_meta_service_client backup.spec.metadata_location >>= delete_sent backup.name
