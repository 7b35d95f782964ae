-- ===== src/Restore/Sync/Stages.antt =====
-- The stages of `syncRestore` write no completion time.
use kahu.Restore.Objects.{
  Restore, RestoreStage, no_stage, initial, pre_hook, resources, volumes, post_hook, finished,
  other_stage, new, is_completed_state, is_finished_stage,
}
use kahu.Restore.Filters.{Indexer}
use kahu.Restore.Cluster.{Cluster, Action, Fault, raised, nil_pointer, stack_overflow}
use kahu.Restore.History.{Ensures-bind, Adding-bind, Ensures-if, Adding, Adding-pure}
use kahu.Restore.Updaters.{
  Returned, with_state, with_stage, update_restore_status, update_restore_state,
  update_restore_stage,
}
use kahu.Restore.Updaters.Kept.{KeepsStatus, update_restore_status-Ensures}
use kahu.Restore.Updaters.Writes.{update_restore_status-Adding}
use kahu.Restore.Untimed.{Untimed, IsAt}
use kahu.Restore.Populate.Untimed.{populate_restore_resources-Stays}
use kahu.Restore.Volumes.Untimed.{sync_volume_restore-Stays}
use kahu.Restore.Resources.Untimed.{IsUntimed, sync_metadata_restore-Stays, update-Untimed}
use kahu.Restore.Populate.{populate_restore_resources}
use kahu.Restore.Volumes.{sync_volume_restore}
use kahu.Restore.Resources.{sync_metadata_restore}
use kahu.Restore.Sync.{
  continue_with, if_completed, sync_finished, hooks_done, sync_post_hook, resources_of,
  sync_resources, volumes_done, sync_volumes, sync_stage, not_populated, populated, sync_populated,
}
use kahu.Base.{ℕ, ◌≡◌, refl, ap, ◌∙◌, true, false, Option, none, some, ◌>>=◌, pure}

module _ (ix : Indexer) (c : Cluster ix.Cache) (stack : ℕ) (kept : KeepsStatus c) where
  open ix use {Cache}

  abbrev Quiet : {A : Type 0} → Action c A → Type 0
  Quiet act = Adding Untimed act

  pub continue-Quiet :
      {Q : Restore → Type 0} (next : Restore → Action c (Option Fault)) (r : Returned)
      → ((restore : Restore) → Q restore → Quiet (next restore))
      → Q r.0
      → Quiet (continue_with ix c stack next r)
  unfolding continue_with
  continue-Quiet next (restore, some fault) h q = Adding-pure _
  continue-Quiet next (restore, none) h q = h restore q

  -- A restore whose state is completed is not finished again.
  finished-Quiet :
      (r : Returned)
      → is_completed_state r.0.status.state ≡ true
      → Quiet (continue_with ix c stack (sync_finished ix c stack) r)
  unfolding continue_with sync_finished
  finished-Quiet (restore, some fault) h = Adding-pure _
  finished-Quiet (restore, none) h = rw h (Adding-pure none)

  hooks_done-Quiet :
      (restore : Restore)
      → IsUntimed restore
      → is_completed_state restore.status.state ≡ true
      → Quiet (hooks_done ix c stack restore)
  unfolding hooks_done update_restore_stage
  hooks_done-Quiet restore u h =
      let done = with_stage finished restore in
      Ensures-bind (λ (r : Returned). r.0.status ≡ done.status) (update_restore_status c done)
        (continue_with ix c stack (sync_finished ix c stack))
        (update_restore_status-Ensures c kept done u)
        (λ r e. finished-Quiet r (ap (λ st. is_completed_state st.state) e ∙ h))

  post_hook-Quiet :
      (restore : Restore) → IsUntimed restore → Quiet (sync_post_hook ix c stack restore)
  unfolding sync_post_hook if_completed
  post_hook-Quiet restore u =
      Ensures-if _ (hooks_done ix c stack restore) (pure none) (hooks_done-Quiet restore u)
        (λ _. Adding-pure none)

  if_post_hook-Quiet :
      (restore : Restore)
      → IsUntimed restore
      → Quiet (if_completed ix c stack (sync_post_hook ix c stack) restore)
  unfolding if_completed
  if_post_hook-Quiet restore u = search (Ensures-if, Adding-pure, post_hook-Quiet)

  resources_of-Quiet :
      (restore : Restore) (o : Option Cache)
      → IsUntimed restore
      → Quiet (resources_of ix c stack restore o)
  unfolding resources_of
  resources_of-Quiet restore none u = Adding-pure _
  resources_of-Quiet restore (some st) u =
      let next = if_completed ix c stack (sync_post_hook ix c stack) in
      Ensures-bind (λ (r : Returned). IsUntimed r.0) (sync_metadata_restore ix c restore st)
        (continue_with ix c stack next) (sync_metadata_restore-Stays ix c kept restore st u)
        (λ r v. continue-Quiet {Q = IsUntimed} next r if_post_hook-Quiet v)

  sync_resources-Quiet :
      (restore : Restore) → IsUntimed restore → Quiet (sync_resources ix c stack restore)
  unfolding sync_resources
  sync_resources-Quiet restore u = record {
    at = λ s. (resources_of-Quiet restore s.resolve_objects u).at s;
  }

  volumes_done-Quiet :
      (restore : Restore) → IsUntimed restore → Quiet (volumes_done ix c stack restore)
  unfolding volumes_done update_restore_stage
  volumes_done-Quiet restore u =
      let next = with_stage resources (with_state new restore) in
      Ensures-bind (λ (r : Returned). IsUntimed r.0) (update_restore_status c next)
        (continue_with ix c stack (sync_resources ix c stack)) (update-Untimed ix c kept next u)
        (λ r v. continue-Quiet {Q = IsUntimed} (sync_resources ix c stack) r sync_resources-Quiet v)

  if_volumes_done-Quiet :
      (restore : Restore)
      → IsUntimed restore
      → Quiet (if_completed ix c stack (volumes_done ix c stack) restore)
  unfolding if_completed
  if_volumes_done-Quiet restore u = search (Ensures-if, Adding-pure, volumes_done-Quiet)

  volumes_of-Quiet :
      (restore : Restore) (o : Option Cache)
      → IsUntimed restore
      → Quiet (
          sync_volume_restore ix c restore o
          >>= continue_with ix c stack (if_completed ix c stack (volumes_done ix c stack)))
  volumes_of-Quiet restore o u =
      let next = if_completed ix c stack (volumes_done ix c stack) in
      Ensures-bind (λ (r : Returned). IsAt restore.status.stage r.0)
        (sync_volume_restore ix c restore o) (continue_with ix c stack next)
        (sync_volume_restore-Stays ix c kept restore.status.stage restore o (refl, u))
        (λ r v. continue-Quiet {Q = IsUntimed} next r if_volumes_done-Quiet v.1)

  sync_volumes-Quiet :
      (restore : Restore) → IsUntimed restore → Quiet (sync_volumes ix c stack restore)
  unfolding sync_volumes
  sync_volumes-Quiet restore u = record {
    at = λ s. (volumes_of-Quiet restore s.resolve_objects u).at s;
  }

  sync_stage-Quiet :
      (stage : RestoreStage) (restore : Restore)
      → is_finished_stage stage ≡ false
      → IsUntimed restore
      → Quiet (sync_stage ix c stack stage restore)
  unfolding sync_stage is_finished_stage
  sync_stage-Quiet volumes restore h u = sync_volumes-Quiet restore u
  sync_stage-Quiet resources restore h u = sync_resources-Quiet restore u
  sync_stage-Quiet post_hook restore h u = post_hook-Quiet restore u
  sync_stage-Quiet finished restore h u = cc
  sync_stage-Quiet no_stage restore h u = Adding-pure _
  sync_stage-Quiet initial restore h u = Adding-pure _
  sync_stage-Quiet pre_hook restore h u = Adding-pure _
  sync_stage-Quiet (other_stage s) restore h u = Adding-pure _

  not_populated-Quiet :
      (restore : Restore) (fault : Fault)
      → IsUntimed restore
      → Quiet (not_populated ix c stack restore fault)
  unfolding not_populated update_restore_state
  not_populated-Quiet restore (raised e) u =
      search (Adding-bind, Adding-pure, update_restore_status-Adding)
  not_populated-Quiet restore nil_pointer u = Adding-pure _
  not_populated-Quiet restore stack_overflow u = Adding-pure _

  populated-Quiet :
      (stage : RestoreStage) (r : Returned)
      → is_finished_stage stage ≡ false
      → IsAt stage r.0
      → Quiet (populated ix c stack r)
  unfolding populated
  populated-Quiet stage (restore, some fault) h (s, u) = not_populated-Quiet restore fault u
  populated-Quiet stage (restore, none) h (s, u) =
      sync_stage-Quiet restore.status.stage restore (ap is_finished_stage s ∙ h) u

  pub sync_populated-Quiet :
      (restore : Restore)
      → is_finished_stage restore.status.stage ≡ false
      → IsUntimed restore
      → Quiet (sync_populated ix c stack restore)
  unfolding sync_populated
  sync_populated-Quiet restore h u =
      let stage = restore.status.stage in
      Ensures-bind (λ (r : Returned). IsAt stage r.0)
        (populate_restore_resources ix c stack restore) (populated ix c stack)
        (populate_restore_resources-Stays ix c stack kept stage restore (refl, u))
        (λ r at. populated-Quiet stage r h at)
