-- ===== src/Backup/Sync/Failures.antt =====
-- What a failed hook stops.
use native.Mathlib.Nat.{le_refl}
use kahu.Api.{Backup, failed, processing}
use kahu.Backup.Cluster.{Cluster, Machine, pre_phase, post_phase, ran_hook, normal, warning}
use kahu.Backup.Order.{InOrder, InOrder-trans, start, step}
use kahu.Backup.Updaters.{Returned, update_backup_status_with_event}
use kahu.Backup.Updaters.Writes.{update_with_event-Keeps}
use kahu.Backup.Volumes.{of_state}
use kahu.Backup.Sync.{
  run_hook, continue_with, reverse_pre_hooks, post_hook_done, sync_post_hook, pre_hook_reversed,
  pre_hook_done, run_pre_hook, sync_pre_hook,
}
use kahu.Base.{◌≡◌, refl, none, some, ◌∷◌, arith, Error}

module _ (c : Cluster) where
  open c use {World, execute_hook}

  reversed_only :
      (r : Returned) (s : Machine World)
      → InOrder 3 s.history 4 (continue_with c (pre_hook_reversed c) r s).1.history
  unfolding continue_with pre_hook_reversed reverse_pre_hooks run_hook
  reversed_only (backup, some e) s = start (omega arith)
  reversed_only (backup, none) s = step (start (le_refl 3)) refl (le_refl 3) (le_refl 4)

  pre_hook_done_failed :
      (backup : Backup) (e : Error) (s : Machine World)
      → InOrder 3 s.history 4 (pre_hook_done c backup (some e) s).1.history
  unfolding pre_hook_done
  pre_hook_done_failed backup e s =
      InOrder-trans (update_with_event-Keeps c 3 backup (of_state failed) warning "PreHookFailed" s)
        (reversed_only _ _)

-- Where the first update of the status passes and a pre hook fails, the call backs up no volumes and
-- no resources after the failure, and runs no hooks but the post hooks, at most once.
pub sync_pre_hook_failed :
    (c : Cluster) (backup current : Backup) (s s' : Machine c.World) (e : Error) (w : c.World)
    → update_backup_status_with_event c backup (of_state processing) normal "PreHook" s
      ≡ ((current, none), s')
    → c.execute_hook current.spec pre_phase s'.world ≡ (some e, w)
    → InOrder 3 (ran_hook pre_phase (some e) ∷ s'.history) 4 (sync_pre_hook c backup s).1.history
unfolding sync_pre_hook continue_with run_pre_hook run_hook
sync_pre_hook_failed c backup current s s' e w updated fails =
    rw updated (rw fails (pre_hook_done_failed c current e _))

-- Where a post hook fails, the call backs up nothing and runs no hooks after the failure.
pub sync_post_hook_failed :
    (c : Cluster) (backup : Backup) (s : Machine c.World) (e : Error) (w : c.World)
    → c.execute_hook backup.spec post_phase s.world ≡ (some e, w)
    → InOrder 4 (ran_hook post_phase (some e) ∷ s.history) 4 (sync_post_hook c backup s).1.history
unfolding sync_post_hook run_hook post_hook_done
sync_post_hook_failed c backup s e w fails =
    rw fails (update_with_event-Keeps c 4 backup (of_state failed) warning "PostHookFailed" _)
