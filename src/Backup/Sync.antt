-- ===== src/Backup/Sync.antt =====
-- `syncBackup` of controllers/backup/backupcontroller.go. Each stage of the `switch` is a function
-- that ends in a call of the next one, as `fallthrough` does.
pub mod Phases
pub mod Failures
mod Examples
use kahu.Api.{
  Backup, BackupStage, BackupState, BackupStatus, empty_status, pre_hook, volumes, post_hook,
  resources, finished, initial, new, failed, processing, completed, deleting, same_state,
}
use kahu.Backup.Cluster.{
  Cluster, Action, HookPhase, pre_phase, post_phase, ran_hook, normal, warning, call, ask, log,
  record_event, pure, ◌>>=◌, ◌>>◌,
}
use kahu.Backup.Updaters.{Returned, update_backup_status_with_event, annotate_backup}
use kahu.Backup.Volumes.{of_state, has_annotation, sync_volume_backup}
use kahu.Backup.Metadata.{process_metadata_backup}
use kahu.Base.{
  String, Bool, true, false, not, ◌&&◌, ◌||◌, Option, none, some, if◌then◌else◌, Error, pure,
}

abbrev pub ann_volume_backup_fail_hooks : String
ann_volume_backup_fail_hooks = "kahu.io/volume-backup-fail-hooks-completed"

-- `kahuapi.BackupStatus{Stage: stage, State: s}`
abbrev at_stage : BackupStage → BackupState → BackupStatus
at_stage stage s = record empty_status { stage = stage; state = s }

is_volumes : BackupStage → Bool
is_volumes volumes = true
is_volumes _ = false

module _ (c : Cluster) where
  open c use {World, now, execute_hook}

  run_hook : Backup → HookPhase → Action World (Option Error)
  run_hook backup phase = do
    e ← call (execute_hook backup.spec phase)
    log (ran_hook phase e)
    pure e

  -- `if err != nil { return err }` after an update of the status.
  continue_with : (Backup → Action World (Option Error)) → Returned → Action World (Option Error)
  continue_with next (backup, some e) = pure (some e)
  continue_with next (backup, none) = next backup

  -- `reversePreHooksExecutionOnFailure`: the post hooks run, and their error is an event only.
  reverse_pre_hooks : Backup → String → Action World (Unit {0})
  reverse_pre_hooks backup reason = run_hook backup post_phase >>= λ _. record_event warning reason

  pub sync_finished : Backup → Action World (Option Error)
  sync_finished backup = do
    time ← ask now
    let update = record (at_stage finished completed) { completion_timestamp = some time }
    updated ← update_backup_status_with_event c backup update normal "Resources"
    pure updated.1

  resources_done : Backup → Action World (Option Error)
  resources_done backup =
      if not (same_state backup.status.state completed)
      then pure none
      else update_backup_status_with_event c backup (at_stage finished new) normal "Resources"
        >>= continue_with sync_finished

  pub sync_resources : Backup → Action World (Option Error)
  sync_resources backup = process_metadata_backup c backup >>= continue_with resources_done

  post_hook_done : Backup → Option Error → Action World (Option Error)
  post_hook_done backup (some e) = do
    updated ← update_backup_status_with_event c backup (of_state failed) warning "PostHookFailed"
    pure updated.1
  post_hook_done backup none =
      record_event normal "PostHook"
      >> (update_backup_status_with_event c backup (at_stage resources new) normal "Resources"
          >>= continue_with sync_resources)

  pub sync_post_hook : Backup → Action World (Option Error)
  sync_post_hook backup = run_hook backup post_phase >>= post_hook_done backup

  volumes_reversed : Backup → Action World (Option Error)
  volumes_reversed backup = do
    reverse_pre_hooks backup "VolumeBackupFailed"
    _ ← annotate_backup c ann_volume_backup_fail_hooks backup
    pure none

  volumes_done : Backup → Action World (Option Error)
  volumes_done backup =
      if same_state backup.status.state failed
      then if has_annotation backup ann_volume_backup_fail_hooks
        then pure none
        else update_backup_status_with_event c backup (of_state failed) warning "VolumeBackupFailed"
          >>= continue_with volumes_reversed
      else if not (same_state backup.status.state completed)
      then pure none
      else update_backup_status_with_event c backup (at_stage post_hook processing) normal
          "PostHook"
        >>= continue_with sync_post_hook

  pub sync_volumes : Backup → Action World (Option Error)
  sync_volumes backup = sync_volume_backup c backup >>= continue_with volumes_done

  pre_hook_reversed : Backup → Action World (Option Error)
  pre_hook_reversed backup = reverse_pre_hooks backup "PreHookFailed" >> pure none

  pre_hook_done : Backup → Option Error → Action World (Option Error)
  pre_hook_done backup (some e) =
      update_backup_status_with_event c backup (of_state failed) warning "PreHookFailed"
      >>= continue_with pre_hook_reversed
  pre_hook_done backup none =
      record_event normal "PreHook"
      >> (update_backup_status_with_event c backup (at_stage volumes new) normal "Volumes"
          >>= continue_with sync_volumes)

  run_pre_hook : Backup → Action World (Option Error)
  run_pre_hook backup = run_hook backup pre_phase >>= pre_hook_done backup

  pub sync_pre_hook : Backup → Action World (Option Error)
  sync_pre_hook backup =
      update_backup_status_with_event c backup (of_state processing) normal "PreHook"
      >>= continue_with run_pre_hook

  pub sync_initial : Backup → Action World (Option Error)
  sync_initial backup =
      update_backup_status_with_event c backup (at_stage pre_hook new) normal "PreHook"
      >>= continue_with sync_pre_hook

  sync_stage : BackupStage → Backup → Action World (Option Error)
  sync_stage initial backup = sync_initial backup
  sync_stage pre_hook backup = sync_pre_hook backup
  sync_stage volumes backup = sync_volumes backup
  sync_stage post_hook backup = sync_post_hook backup
  sync_stage resources backup = sync_resources backup
  sync_stage finished backup = sync_finished backup
  sync_stage _ backup = pure none

  pub sync_backup : Backup → Action World (Option Error)
  sync_backup backup =
      if (same_state backup.status.state deleting || same_state backup.status.state failed)
        && not (is_volumes backup.status.stage)
      then pure none
      else sync_stage backup.status.stage backup
