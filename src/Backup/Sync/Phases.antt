-- ===== src/Backup/Sync/Phases.antt =====
-- The order of the work within one call of `syncBackup`.
use native.Mathlib.Nat.{le_refl}
use kahu.Api.{
  Backup, BackupStage, initial, pre_hook, volumes, post_hook, resources, finished, new, failed,
  processing, completed, deleting, same_state,
}
use kahu.Backup.Cluster.{
  Cluster, Machine, Action, pre_phase, post_phase, normal, warning, EventType, ◌>>=◌,
}
use kahu.Backup.Order.{InOrder, InOrder-widen, InOrder-trans, start, step, Keeps, Keeps-bind}
use kahu.Backup.Updaters.{Returned, update_backup_status_with_event}
use kahu.Backup.Updaters.Writes.{update_with_event-Keeps, annotate_backup-Keeps}
use kahu.Backup.Volumes.{of_state, has_annotation, sync_volume_backup}
use kahu.Backup.Volumes.Order.{sync_volume_backup-Keeps}
use kahu.Backup.Metadata.{process_metadata_backup}
use kahu.Backup.Metadata.Order.{process_metadata_backup-Keeps}
use kahu.Backup.Sync.{
  at_stage, run_hook, continue_with, reverse_pre_hooks, sync_finished, resources_done,
  sync_resources, post_hook_done, sync_post_hook, volumes_reversed, volumes_done, sync_volumes,
  pre_hook_reversed, pre_hook_done, run_pre_hook, sync_pre_hook, sync_initial, sync_stage,
  is_volumes, sync_backup, ann_volume_backup_fail_hooks,
}
use kahu.Base.{
  ℕ, ◌≤◌, String, refl, inl, inr, not, ◌&&◌, ◌||◌, Option, none, some, arith, Bool-cases, Error,
}

module _ (c : Cluster) where
  open c use {World}

  continue_with-Keeps :
      {n m : ℕ} (next : Backup → Action World (Option Error))
      → ((backup : Backup) → Keeps n m (next backup))
      → n ≤ m
      → (r : Returned) → Keeps n m (continue_with c next r)
  unfolding continue_with
  continue_with-Keeps next h p (backup, some e) = λ s. start p
  continue_with-Keeps next h p (backup, none) = h backup

  -- An update of the status, and what follows it.
  update_then :
      {n m : ℕ} (next : Backup → Action World (Option Error))
      → ((backup : Backup) → Keeps n m (next backup))
      → n ≤ m
      → (backup : Backup) (status : kahu.Api.BackupStatus) (t : EventType) (reason : String)
      → Keeps n m
          (update_backup_status_with_event c backup status t reason >>= continue_with c next)
  update_then {n} next h p backup status t reason =
      Keeps-bind n (update_backup_status_with_event c backup status t reason) (continue_with c next)
        (update_with_event-Keeps c n backup status t reason) (continue_with-Keeps next h p)

  sync_finished-Keeps : (n : ℕ) (backup : Backup) → Keeps n n (sync_finished c backup)
  unfolding sync_finished
  sync_finished-Keeps n backup s = update_with_event-Keeps c n backup _ normal "Resources" s

  resources_done-Keeps : (backup : Backup) → Keeps 5 5 (resources_done c backup)
  unfolding resources_done
  resources_done-Keeps backup = elim (Bool-cases (same_state backup.status.state completed)) [
    | inl t ↦ rw t (
        update_then (sync_finished c) (sync_finished-Keeps 5) (le_refl 5) backup
          (at_stage finished new) normal "Resources")
    | inr f ↦ rw f (λ s. start (le_refl 5))
  ]

  sync_resources-Keeps : (backup : Backup) → Keeps 4 5 (sync_resources c backup)
  unfolding sync_resources
  sync_resources-Keeps backup =
      Keeps-bind 5 (process_metadata_backup c backup) (continue_with c (resources_done c))
        (process_metadata_backup-Keeps c backup)
        (continue_with-Keeps (resources_done c) resources_done-Keeps (le_refl 5))

  run_hook_post : (backup : Backup) → Keeps 3 4 (run_hook c backup post_phase)
  unfolding run_hook
  run_hook_post backup s = step (start (le_refl 3)) refl (le_refl 3) (le_refl 4)

  run_hook_pre : (backup : Backup) → Keeps 1 2 (run_hook c backup pre_phase)
  unfolding run_hook
  run_hook_pre backup s = step (start (le_refl 1)) refl (le_refl 1) (le_refl 2)

  post_hook_done-Keeps :
      (backup : Backup) (e : Option Error) → Keeps 4 5 (post_hook_done c backup e)
  unfolding post_hook_done
  post_hook_done-Keeps backup (some e) s =
      InOrder-widen
        (update_with_event-Keeps c 4 backup (of_state failed) warning "PostHookFailed" s)
        (omega arith)
  post_hook_done-Keeps backup none s =
      update_then (sync_resources c) sync_resources-Keeps (omega arith) backup
        (at_stage resources new) normal "Resources" _

  sync_post_hook-Keeps : (backup : Backup) → Keeps 3 5 (sync_post_hook c backup)
  unfolding sync_post_hook
  sync_post_hook-Keeps backup =
      Keeps-bind 4 (run_hook c backup post_phase) (post_hook_done c backup) (run_hook_post backup)
        (post_hook_done-Keeps backup)

  reverse_pre_hooks-Keeps :
      (backup : Backup) (reason : String) → Keeps 3 4 (reverse_pre_hooks c backup reason)
  unfolding reverse_pre_hooks
  reverse_pre_hooks-Keeps backup reason s = run_hook_post backup s

  volumes_reversed-Keeps : (backup : Backup) → Keeps 3 5 (volumes_reversed c backup)
  unfolding volumes_reversed
  volumes_reversed-Keeps backup s =
      InOrder-trans (reverse_pre_hooks-Keeps backup "VolumeBackupFailed" s) (
        InOrder-widen (annotate_backup-Keeps c 4 ann_volume_backup_fail_hooks backup _)
          (omega arith))

  volumes_done-Keeps : (backup : Backup) → Keeps 3 5 (volumes_done c backup)
  unfolding volumes_done
  volumes_done-Keeps backup = elim (Bool-cases (same_state backup.status.state failed)) [
    | inl t ↦ rw t (elim (Bool-cases (has_annotation backup ann_volume_backup_fail_hooks)) [
      | inl a ↦ rw a (λ s. start (omega arith))
      | inr b ↦ rw b (
          update_then (volumes_reversed c) volumes_reversed-Keeps (omega arith) backup
            (of_state failed) warning "VolumeBackupFailed")
    ])
    | inr f ↦ rw f (elim (Bool-cases (same_state backup.status.state completed)) [
      | inl a ↦ rw a (
          update_then (sync_post_hook c) sync_post_hook-Keeps (omega arith) backup
            (at_stage post_hook processing) normal "PostHook")
      | inr b ↦ rw b (λ s. start (omega arith))
    ])
  ]

  sync_volumes-Keeps : (backup : Backup) → Keeps 2 5 (sync_volumes c backup)
  unfolding sync_volumes
  sync_volumes-Keeps backup =
      Keeps-bind 3 (sync_volume_backup c backup) (continue_with c (volumes_done c))
        (sync_volume_backup-Keeps c backup)
        (continue_with-Keeps (volumes_done c) volumes_done-Keeps (omega arith))

  pre_hook_reversed-Keeps : (backup : Backup) → Keeps 2 5 (pre_hook_reversed c backup)
  unfolding pre_hook_reversed
  pre_hook_reversed-Keeps backup s =
      InOrder-trans (start (omega arith))
        (InOrder-widen (reverse_pre_hooks-Keeps backup "PreHookFailed" s) (omega arith))

  pre_hook_done-Keeps : (backup : Backup) (e : Option Error) → Keeps 2 5 (pre_hook_done c backup e)
  unfolding pre_hook_done
  pre_hook_done-Keeps backup (some e) =
      update_then (pre_hook_reversed c) pre_hook_reversed-Keeps (omega arith) backup
        (of_state failed) warning "PreHookFailed"
  pre_hook_done-Keeps backup none = λ s.
      update_then (sync_volumes c) sync_volumes-Keeps (omega arith) backup (at_stage volumes new)
        normal "Volumes" _

  run_pre_hook-Keeps : (backup : Backup) → Keeps 1 5 (run_pre_hook c backup)
  unfolding run_pre_hook
  run_pre_hook-Keeps backup =
      Keeps-bind 2 (run_hook c backup pre_phase) (pre_hook_done c backup) (run_hook_pre backup)
        (pre_hook_done-Keeps backup)

  sync_pre_hook-Keeps : (backup : Backup) → Keeps 1 5 (sync_pre_hook c backup)
  unfolding sync_pre_hook
  sync_pre_hook-Keeps backup =
      update_then (run_pre_hook c) run_pre_hook-Keeps (omega arith) backup (of_state processing)
        normal "PreHook"

  sync_initial-Keeps : (backup : Backup) → Keeps 1 5 (sync_initial c backup)
  unfolding sync_initial
  sync_initial-Keeps backup =
      update_then (sync_pre_hook c) sync_pre_hook-Keeps (omega arith) backup (at_stage pre_hook new)
        normal "PreHook"

-- The place of the first work of a stage.
abbrev pub first_place : BackupStage → ℕ
first_place initial = 1
first_place pre_hook = 1
first_place volumes = 2
first_place post_hook = 3
first_place resources = 4
first_place _ = 5

sync_stage-InOrder :
    (c : Cluster) (stage : BackupStage) (backup : Backup)
    → Keeps (first_place stage) 5 (sync_stage c stage backup)
unfolding sync_stage
sync_stage-InOrder c initial backup = sync_initial-Keeps c backup
sync_stage-InOrder c pre_hook backup = sync_pre_hook-Keeps c backup
sync_stage-InOrder c volumes backup = sync_volumes-Keeps c backup
sync_stage-InOrder c post_hook backup = sync_post_hook-Keeps c backup
sync_stage-InOrder c resources backup = sync_resources-Keeps c backup
sync_stage-InOrder c finished backup = sync_finished-Keeps c 5 backup
sync_stage-InOrder c _ backup = λ s. start (le_refl 5)

first_place-le : (stage : BackupStage) → first_place stage ≤ 5
first_place-le initial = omega arith
first_place-le _ = omega arith

-- One call of `syncBackup` runs pre hooks, backs up volumes, runs post hooks and backs up resources
-- in that order, each at most once, and none of what belongs to a stage before the backup's. The
-- post hooks that reverse the pre hooks after a failure take the place of the others.
pub sync_backup-InOrder :
    (c : Cluster) (backup : Backup) (s : Machine c.World)
    → InOrder (first_place backup.status.stage) s.history 5 (sync_backup c backup s).1.history
unfolding sync_backup
sync_backup-InOrder c backup s =
    elim (Bool-cases (
      (same_state backup.status.state deleting || same_state backup.status.state failed)
      && not (is_volumes backup.status.stage))) [
        | inl t ↦ rw t (start (first_place-le backup.status.stage))
        | inr f ↦ rw f (sync_stage-InOrder c backup.status.stage backup s)
      ]
