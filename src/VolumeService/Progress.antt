-- ===== src/VolumeService/Progress.antt =====
-- `backupProgressContext` of backupvolume.go: the polling of a backup's progress.
pub mod Synced
pub mod Done
mod Examples
use kahu.Backup.Cluster.{Lookup, found, not_found, lookup_error, normal}
use kahu.Operation.{Polled}
use kahu.Base.Integer.{pos, int_lt}
use kahu.VolumeService.Cluster.{
  Cluster, Action, VolumeBackupContent, VolumeBackupState, BackupStat, BackupIdentity, Phase,
  in_progress, completed, failed, call, ask, record_event,
}
use kahu.VolumeService.Updaters.{
  Patched, error_of, with_status, with_phase, get_volume_backup, patch_backup_status, update_phase,
  update_status_with_failure,
}
use kahu.Base.{
  ℕ, ◌+◌, String, Bool, true, false, not, ◌&&◌, ◌||◌, Option, none, some, List, [], ◌∷◌, map, ◌==◌,
  ltb, if◌then◌else◌, all, Error, Result, ok, err, text_of, ◌>>=◌, ◌>>◌, pure,
}

-- `getVolIdentifiers`, and the same loop in `syncBackupStat`.
pub get_vol_identifiers : List VolumeBackupState → List BackupIdentity
get_vol_identifiers states =
    map
      (λ state. record {
        backup_handle = state.backup_handle;
        backup_attributes = state.backup_attributes;
      })
      states

unfoldable pub is_in_progress : Phase → Bool
is_in_progress in_progress = true
is_in_progress _ = false

pub skip_backup_progress_processing : VolumeBackupContent → Bool
skip_backup_progress_processing content =
    content.deleted || not (is_in_progress content.status.phase)

-- A state after one stat of the driver.
raise_progress : ℕ → BackupStat → VolumeBackupState → VolumeBackupState
raise_progress now stat state =
    if state.backup_handle == stat.backup_handle && int_lt state.progress stat.progress
    then record state { last_progress_update = now; progress = stat.progress }
    else state

pub apply_stats : ℕ → List BackupStat → List VolumeBackupState → List VolumeBackupState
apply_stats now [] states = states
apply_stats now (stat ∷ stats) states = apply_stats now stats (map (raise_progress now stat) states)

pub is_complete : VolumeBackupState → Bool
is_complete state = not (int_lt state.progress (pos 100))

-- Half an hour without progress. The difference of a time to a whole second is below 1800 seconds if
-- its whole seconds are.
pub is_stale : ℕ → VolumeBackupState → Bool
is_stale now state = not (ltb now (state.last_progress_update + 1800))

abbrev timeout_reason : String
timeout_reason = "Volume backup timout. No progress update for max wait duration 30m0s"

-- The content after the driver's stats.
pub with_stats : ℕ → List BackupStat → VolumeBackupContent → VolumeBackupContent
with_stats now stats content =
    let status = content.status in
    let states = apply_stats now stats status.backup_states in
    if all (is_stale now) states
    then with_status content
        (record status { backup_states = states; failure_reason = timeout_reason; phase = failed })
    else with_status content (record status { backup_states = states })

module _ (c : Cluster) where
  open c use {World, now, is_unavailable, get_backup_stat}

  stats_received :
      VolumeBackupContent
      → Result (List BackupStat)
      → Action World (VolumeBackupContent × Result Bool)
  stats_received content (err e) = pure (content, err e)
  stats_received content (ok stats) = do
    time ← ask now
    let synced = with_stats time stats content
    pure (synced, ok (all is_complete synced.status.backup_states))

  -- The content is changed in place.
  pub sync_backup_stat : VolumeBackupContent → Action World (VolumeBackupContent × Result Bool)
  sync_backup_stat content =
      call
        (get_backup_stat (get_vol_identifiers content.status.backup_states) content.spec.parameters)
      >>= stats_received content

  progress_written : Bool → Option Error → Action World Polled
  progress_written is_done (some e) = pure (false, none)
  progress_written true none = record_event normal "VolumeBackupCompleted" >> pure (true, none)
  progress_written false none = pure (false, none)

  pub stat_synced : VolumeBackupContent → VolumeBackupContent × Result Bool → Action World Polled
  stat_synced content (synced, err e) = pure (false, if is_unavailable e then none else some e)
  stat_synced content (synced, ok is_done) = do
    p ← patch_backup_status c content (if is_done then with_phase synced completed else synced)
    progress_written is_done (error_of p)

  progress_found : Lookup VolumeBackupContent → Action World Polled
  progress_found (not_found e) = pure (true, none)
  progress_found (lookup_error e) = pure (false, none)
  progress_found (found content) =
      if skip_backup_progress_processing content
      then pure (true, none)
      else sync_backup_stat content >>= stat_synced content

  pub process_backup_progress : String → Action World Polled
  process_backup_progress index = ask (get_volume_backup c index) >>= progress_found

  -- The error of the update is logged.
  unless_skipped :
      (VolumeBackupContent → Action World Patched)
      → Lookup VolumeBackupContent
      → Action World (Unit {0})
  unless_skipped update (not_found e) = pure tt
  unless_skipped update (lookup_error e) = pure tt
  unless_skipped update (found content) =
      if skip_backup_progress_processing content then pure tt else update content >>= λ p. pure tt

  pub handle_backup_progress_failure : String → Error → Action World (Unit {0})
  handle_backup_progress_failure index progress_err =
      ask (get_volume_backup c index)
      >>= unless_skipped (λ content. update_status_with_failure c content (text_of progress_err))

  pub handle_backup_progress_success : String → Action World (Unit {0})
  handle_backup_progress_success index =
      ask (get_volume_backup c index)
      >>= unless_skipped (λ content. update_phase c content completed)
