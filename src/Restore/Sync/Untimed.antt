-- ===== src/Restore/Sync/Untimed.antt =====
-- `syncRestore` and the completion time of a restore.
use kahu.Utils.Metadata.{contains_finalizer, set_finalizer}
use kahu.Api.{ObjectMeta}
use kahu.Restore.Objects.{
  Restore, RestoreStage, no_stage, initial, pre_hook, resources, volumes, post_hook, finished,
  other_stage, new, is_finished_stage,
}
use kahu.Restore.Filters.{Indexer}
use kahu.Restore.Cluster.{Cluster, Machine, Action, Fault}
use kahu.Restore.History.{Ensures-bind, Adding-bind, Ensures-if, Adding, Adding-pure, Adds}
use kahu.Restore.Updaters.{Returned, with_state, with_stage, update_restore_status, patch_restore}
use kahu.Restore.Updaters.Kept.{KeepsStatus}
use kahu.Restore.Untimed.{Untimed, IsAt, update-Stays, patch-Stays}
use kahu.Restore.Resources.Untimed.{IsUntimed, update-Untimed}
use kahu.Restore.Validate.{validate_restore}
use kahu.Restore.Validate.Decides.{validate_restore-Adding}
use kahu.Restore.Sync.Stages.{continue-Quiet, sync_populated-Quiet}
use kahu.Restore.Sync.{
  with_meta, restore_finalizer, started, continue_with, sync_populated, restore_validated,
  validate_started, sync_initial, sync_from, sync_protected, protect, sync_restore,
}
use kahu.Base.{ℕ, ◌≡◌, refl, ap, ◌∙◌, false, not, Option, none, some, ◌>>=◌, pure}

module _ (ix : Indexer) (c : Cluster ix.Cache) (stack : ℕ) (kept : KeepsStatus c) where
  abbrev Quiet : {A : Type 0} → Action c A → Type 0
  Quiet act = Adding Untimed act

  -- A restore that is at the volume stage, where the controller goes on after the validation.
  entered-Quiet :
      (r : Returned)
      → IsAt volumes r.0
      → Quiet (continue_with ix c stack (sync_populated ix c stack) r)
  unfolding is_finished_stage
  entered-Quiet r at =
      continue-Quiet ix c stack kept {Q = IsAt volumes} (sync_populated ix c stack) r
        (λ restore (s, u). sync_populated-Quiet ix c stack kept restore (ap is_finished_stage s) u)
        at

  restore_validated-Quiet :
      (restore : Restore) (fault : Option Fault)
      → IsUntimed restore
      → Quiet (restore_validated ix c stack restore fault)
  unfolding restore_validated
  restore_validated-Quiet restore (some fault) u = Adding-pure _
  restore_validated-Quiet restore none u =
      let entered = with_state new (with_stage volumes restore) in
      Ensures-bind (λ (r : Returned). IsAt volumes r.0) (update_restore_status c entered)
        (continue_with ix c stack (sync_populated ix c stack))
        (update-Stays c kept volumes entered (refl, u)) entered-Quiet

  validate_started-Quiet :
      (restore : Restore) → IsUntimed restore → Quiet (validate_started ix c stack restore)
  unfolding validate_started
  validate_started-Quiet restore u =
      Adding-bind (validate_restore ix c restore) (restore_validated ix c stack restore)
        (validate_restore-Adding ix c restore (λ errors. u))
        (λ e. restore_validated-Quiet restore e u)

  start-Quiet :
      (restore : Restore)
      → IsUntimed restore
      → Quiet (
          update_restore_status c restore
          >>= continue_with ix c stack (validate_started ix c stack))
  start-Quiet restore u =
      Ensures-bind (λ (r : Returned). IsUntimed r.0) (update_restore_status c restore)
        (continue_with ix c stack (validate_started ix c stack))
        (update-Untimed ix c kept restore u)
        (λ r v.
          continue-Quiet ix c stack kept {Q = IsUntimed} (validate_started ix c stack) r
            validate_started-Quiet v)

  sync_initial-Quiet :
      (restore : Restore) → IsUntimed restore → Quiet (sync_initial ix c stack restore)
  unfolding sync_initial started
  sync_initial-Quiet restore u = record { at = λ s. (start-Quiet (started restore _) u).at s }

  sync_from-Quiet :
      (stage : RestoreStage) (restore : Restore)
      → restore.status.stage ≡ stage
      → is_finished_stage stage ≡ false
      → IsUntimed restore
      → Quiet (sync_from ix c stack stage restore)
  unfolding sync_from
  sync_from-Quiet no_stage restore e h u = sync_initial-Quiet restore u
  sync_from-Quiet initial restore e h u = sync_initial-Quiet restore u
  sync_from-Quiet pre_hook restore e h u =
      sync_populated-Quiet ix c stack kept restore (ap is_finished_stage e ∙ h) u
  sync_from-Quiet resources restore e h u =
      sync_populated-Quiet ix c stack kept restore (ap is_finished_stage e ∙ h) u
  sync_from-Quiet volumes restore e h u =
      sync_populated-Quiet ix c stack kept restore (ap is_finished_stage e ∙ h) u
  sync_from-Quiet post_hook restore e h u =
      sync_populated-Quiet ix c stack kept restore (ap is_finished_stage e ∙ h) u
  sync_from-Quiet finished restore e h u =
      sync_populated-Quiet ix c stack kept restore (ap is_finished_stage e ∙ h) u
  sync_from-Quiet (other_stage s) restore e h u =
      sync_populated-Quiet ix c stack kept restore (ap is_finished_stage e ∙ h) u

  sync_protected-Quiet :
      (restore : Restore)
      → is_finished_stage restore.status.stage ≡ false
      → IsUntimed restore
      → Quiet (sync_protected ix c stack restore)
  unfolding sync_protected
  sync_protected-Quiet restore h u = sync_from-Quiet restore.status.stage restore refl h u

  protected-Quiet :
      (restore updated : Restore)
      → updated.status ≡ restore.status
      → is_finished_stage restore.status.stage ≡ false
      → IsUntimed restore
      → Quiet
          (patch_restore c restore updated >>= continue_with ix c stack (sync_protected ix c stack))
  protected-Quiet restore updated e h u =
      let stage = restore.status.stage in
      Ensures-bind (λ (r : Returned). IsAt stage r.0) (patch_restore c restore updated)
        (continue_with ix c stack (sync_protected ix c stack))
        (patch-Stays c kept stage restore updated e (refl, u))
        (λ r at.
          continue-Quiet ix c stack kept {Q = IsAt stage} (sync_protected ix c stack) r
            (λ restore' (q, v). sync_protected-Quiet restore' (ap is_finished_stage q ∙ h) v) at)

  with_meta-status :
      (restore : Restore) (o : Option ObjectMeta) → (with_meta restore o).status ≡ restore.status
  with_meta-status restore none = refl
  with_meta-status restore (some meta) = refl

  protect-Quiet :
      (restore : Restore)
      → is_finished_stage restore.status.stage ≡ false
      → IsUntimed restore
      → Quiet (protect ix c stack restore)
  unfolding protect
  protect-Quiet restore h u =
      let meta = set_finalizer (some restore.object_meta) restore_finalizer in
      let updated = with_meta restore meta in
      Ensures-if (not (contains_finalizer (some restore.object_meta) restore_finalizer))
        (patch_restore c restore updated >>= continue_with ix c stack (sync_protected ix c stack))
        (sync_protected ix c stack restore)
        (λ _. protected-Quiet restore updated (with_meta-status restore meta) h u)
        (λ _. sync_protected-Quiet restore h u)

-- Where the API server keeps the statuses that it is sent, one call of `syncRestore` on a restore
-- that has no completion time and is not in the `Finished` stage writes no completion time, also
-- where it takes the restore through all stages to the end.
pub sync_restore-Untimed :
    (ix : Indexer) (c : Cluster ix.Cache) (stack : ℕ) (restore : Restore)
    (s : Machine c.World ix.Cache)
    → KeepsStatus c
    → is_finished_stage restore.status.stage ≡ false
    → restore.status.completion_timestamp ≡ none
    → Adds Untimed s.history (sync_restore ix c stack restore s).1.history
unfolding sync_restore
sync_restore-Untimed ix c stack restore s kept h u =
    ((Ensures-if _ (pure none) (protect ix c stack restore) (λ _. Adding-pure none)
        (λ _. protect-Quiet ix c stack kept restore h u)).at
      s).0
