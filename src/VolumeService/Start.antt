-- ===== src/VolumeService/Start.antt =====
-- The start of a backup: `validateBackupResponse`, `handleVolumeBackup` and `processVolumeBackup` of
-- backupvolume.go.
pub mod Covered
pub mod Runs
mod Examples
use Prim.Native.String.{◌++◌ as append}
use kahu.Operation.{Handler, begin_run}
use kahu.Backup.Cluster.{normal}
use kahu.VolumeService.Cluster.{
  Cluster, Action, Attempt, made, ended, VolumeBackupContent, VolumeBackupState, BackupIdentifier,
  Phase, no_phase, init_phase, in_progress, StartBackupResponse, started_backup, call, ask, log,
}
use kahu.VolumeService.Request.{Request, name_set, construct_backup_request}
use kahu.VolumeService.Updaters.{
  error_of, with_status, update_status_with_event, update_status_with_failure,
}
use kahu.Base.{
  ℕ, String, Bool, true, not, ◌||◌, Option, none, some, List, map, ltb, if◌then◌else◌, length,
  is_empty, keep, all, contains, Error, message, Result, ok, err, text_of, Fault, raised, ◌>>=◌,
  ◌>>◌, pure,
}

pub has_all : List String → List String → Bool
has_all names wanted = all (contains names) wanted

module _ (c : Cluster) where
  open c use {
    World, now, is_unavailable, sorted, join, get_snapshot, csi_content, csi_content_name,
    claimed_volume, get_volume, start_backup,
  }

  pub validate_backup_response : List String → List BackupIdentifier → Option Error
  validate_backup_response vol_names identifiers =
      let backup_vols = name_set (map (λ i. i.pv_name) identifiers) in
      if ltb (length vol_names) (length identifiers) || ltb (length identifiers) (length vol_names)
      then some (message "driver do not return all volume backup handler")
      else if not (has_all vol_names backup_vols)
      then some (
          message (
            append "driver do not return volume "
              (join (sorted (keep (λ n. not (contains backup_vols n)) vol_names)) ", ")))
      else none

  -- The states of a backup that was started.
  backup_states_of : ℕ → List BackupIdentifier → List VolumeBackupState
  backup_states_of time identifiers =
      map
        (λ i. record {
          volume_name = i.pv_name;
          backup_handle = i.identity.backup_handle;
          backup_attributes = i.identity.backup_attributes;
          progress = kahu.Base.Integer.pos 0;
          last_progress_update = time;
        })
        identifiers

  response_validated :
      VolumeBackupContent
      → List BackupIdentifier
      → Option Error
      → Action World (Attempt VolumeBackupContent)
  response_validated content identifiers (some e) = pure (ended (raised e))
  response_validated content identifiers none = do
    time ← ask now
    let status = content.status
    pure (
        made (
          with_status content (record status {
            phase = in_progress;
            backup_states = backup_states_of time identifiers;
          })))

  backup_started :
      VolumeBackupContent
      → List String
      → Result StartBackupResponse
      → Action World (Attempt VolumeBackupContent)
  backup_started content vol_names (err e) = pure (ended (raised e))
  backup_started content vol_names (ok response) =
      if is_empty response.errors
      then response_validated content response.backup_info
          (validate_backup_response vol_names response.backup_info)
      else pure (
          ended (
            raised (
              message (
                append "Unable to start backup. err: (" (append (join response.errors " ,") ")")))))

  request_constructed :
      VolumeBackupContent → Attempt Request → Action World (Attempt VolumeBackupContent)
  request_constructed content (ended fault) = pure (ended fault)
  request_constructed content (made (request, vol_names)) = do
    log (started_backup request)
    response ← call (start_backup request)
    backup_started content vol_names response

  pub handle_volume_backup : VolumeBackupContent → Action World (Attempt VolumeBackupContent)
  handle_volume_backup content =
      ask (construct_backup_request c content) >>= request_constructed content

  -- The progress is polled with both callbacks. An error of `Run` is not returned.
  run_progress : String → Action World (Option Fault)
  run_progress name s =
      let handler : Handler = record { has_on_failure = true; has_on_success = true } in
      (none, record s { operations = (begin_run name handler s.operations).0 })

  as_fault : Option Error → Option Fault
  as_fault none = none
  as_fault (some e) = some (raised e)

  start_written : String → Option Error → Action World (Option Fault)
  start_written name (some e) = pure (some (raised e))
  start_written name none = run_progress name

  -- An error of the driver that is not there leaves the content to a later try; another one fails
  -- the content, and what is returned is the error of that update.
  pub start_returned :
      VolumeBackupContent → Attempt VolumeBackupContent → Action World (Option Fault)
  start_returned content (ended (raised e)) =
      if is_unavailable e
      then pure none
      else update_status_with_failure c content (text_of e) >>= λ p. pure (as_fault (error_of p))
  start_returned content (ended fault) = pure (some fault)
  start_returned content (made new_content) =
      update_status_with_event c content new_content normal "VolumeBackupStarted" >>= λ p.
      start_written content.name (error_of p)

  process_phase : Phase → VolumeBackupContent → Action World (Option Fault)
  process_phase no_phase content = handle_volume_backup content >>= start_returned content
  process_phase init_phase content = handle_volume_backup content >>= start_returned content
  process_phase in_progress content = run_progress content.name
  process_phase _ content = pure none

  pub process_volume_backup : VolumeBackupContent → Action World (Option Fault)
  process_volume_backup content = process_phase content.status.phase content
