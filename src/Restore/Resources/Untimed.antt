-- ===== src/Restore/Resources/Untimed.antt =====
-- The resource stage of a restore writes no completion time.
use kahu.Restore.Objects.{Restore, post_hook, completed, processing}
use kahu.Restore.Filters.{Object, Indexer}
use kahu.Restore.Cluster.{Cluster, Action, Fault, raised, nil_pointer, stack_overflow, call}
use kahu.Restore.History.{
  Ensures, Ensures-bind, Adding-bind, Ensures-pure, Ensures-if, Ensures-weaken, Adding, Adding-pure,
  Adding-call, Adding-log, adding_rules,
}
use kahu.Restore.Updaters.{
  Returned, with_state, with_stage, update_restore_status, update_restore_state,
  update_restore_stage,
}
use kahu.Restore.Updaters.Kept.{KeepsStatus, update_restore_status-Ensures}
use kahu.Restore.Untimed.{Untimed}
use kahu.Restore.Apply.Works.{apply_resource-Adding}
use kahu.Restore.Resources.{
  and_next, apply_all, crds_listed, apply_crd, hooks_run, hooks_waited, objects_applied,
  hooks_collected, apply_indexed_resource, fail_restore, resources_applied, crds_applied,
  sync_metadata_restore,
}
use kahu.Base.{
  String, ◌≡◌, ap, ◌∙◌, Option, none, some, List, [], ◌∷◌, Error, Result, ok, err, ◌>>=◌, pure,
}

-- A restore without a completion time.
abbrev pub IsUntimed : Restore → Type 0
IsUntimed r = r.status.completion_timestamp ≡ none

module _ (ix : Indexer) (c : Cluster ix.Cache) (kept : KeepsStatus c) where
  open ix use {Cache}
  open c use {Hooks}

  abbrev Stays : Action c Returned → Type 0
  Stays act = Ensures Untimed (λ (r : Returned). IsUntimed r.0) act

  pub update-Untimed :
      (restore : Restore)
      → IsUntimed restore
      → Ensures Untimed (λ (r : Returned). IsUntimed r.0) (update_restore_status c restore)
  update-Untimed restore h =
      Ensures-weaken _ (update_restore_status-Ensures c kept restore h)
        (λ r e. ap (λ st. st.completion_timestamp) e ∙ h)

  and_next-Adding :
      (rest : Action c (Option Fault)) (fault : Option Fault)
      → Adding Untimed rest
      → Adding Untimed (and_next ix c rest fault)
  unfolding and_next
  and_next-Adding rest (some fault) h = Adding-pure _
  and_next-Adding rest none h = h

  apply_all-Adding :
      (restore : Restore) (os : List Object) → Adding Untimed (apply_all ix c restore os)
  unfolding apply_all
  apply_all-Adding restore [] = Adding-pure _
  apply_all-Adding restore (o ∷ os) =
      let rest = apply_all-Adding restore os in
      search (adding_rules, apply_resource-Adding, and_next-Adding)

  crds_listed-Adding :
      (restore : Restore) (r : Result (List Object)) → Adding Untimed (crds_listed ix c restore r)
  unfolding crds_listed
  crds_listed-Adding restore (err e) = Adding-pure _
  crds_listed-Adding restore (ok os) = apply_all-Adding restore _

  updated-Stays : (r : Returned) → IsUntimed r.0 → Stays (pure (r.0, none))
  updated-Stays r h = Ensures-pure (r.0, none) h

  hooks_run-Stays :
      (restore : Restore) (e : Option Error) → IsUntimed restore → Stays (hooks_run ix c restore e)
  unfolding hooks_run update_restore_state
  hooks_run-Stays restore (some e) h = Ensures-pure _ h
  hooks_run-Stays restore none h =
      Ensures-bind _ (update_restore_status c (with_state completed restore))
        (λ r. pure (r.0, none)) (update-Untimed _ h) updated-Stays

  hooks_waited-Stays :
      (hooks : Hooks) (restore : Restore) (es : List Error)
      → IsUntimed restore
      → Stays (hooks_waited ix c hooks restore es)
  unfolding hooks_waited
  hooks_waited-Stays hooks restore (e ∷ es) h = Ensures-pure _ h
  hooks_waited-Stays hooks restore [] h =
      search (Adding-bind, Adding-log, Adding-call, hooks_run-Stays)

  objects_applied-Stays :
      (hooks : Hooks) (restore : Restore) (fault : Option Fault)
      → IsUntimed restore
      → Stays (objects_applied ix c hooks restore fault)
  unfolding objects_applied update_restore_state update_restore_stage
  objects_applied-Stays hooks restore (some fault) h = Ensures-pure _ h
  objects_applied-Stays hooks restore none h =
      let waited = λ (r : Returned). call c.wait_hooks >>= hooks_waited ix c hooks r.0 in
      let staged = λ (r : Returned).
        update_restore_status c (with_stage post_hook (with_state processing r.0)) >>= waited in
      Ensures-bind (λ (r : Returned). IsUntimed r.0)
        (update_restore_status c (with_state completed restore)) staged
        (update-Untimed (with_state completed restore) h)
        (λ r u.
          Ensures-bind (λ (r : Returned). IsUntimed r.0)
            (update_restore_status c (with_stage post_hook (with_state processing r.0))) waited
            (update-Untimed (with_stage post_hook (with_state processing r.0)) u)
            (λ r' u'.
              Adding-bind (call c.wait_hooks) (hooks_waited ix c hooks r'.0) (Adding-call _)
                (λ es. hooks_waited-Stays hooks r'.0 es u')))

  hooks_collected-Stays :
      (st : Cache) (restore : Restore) (r : Result Hooks)
      → IsUntimed restore
      → Stays (hooks_collected ix c st restore r)
  unfolding hooks_collected
  hooks_collected-Stays st restore (err e) h = Ensures-pure _ h
  hooks_collected-Stays st restore (ok hooks) h =
      Adding-bind _ _ (apply_all-Adding restore _) (λ e. objects_applied-Stays hooks restore e h)

  fail_restore-Stays :
      (reason : String) (restore : Restore) (fault : Fault)
      → IsUntimed restore
      → Stays (fail_restore ix c reason restore fault)
  unfolding fail_restore
  fail_restore-Stays reason restore (raised e) h = update-Untimed _ h
  fail_restore-Stays reason restore nil_pointer h = Ensures-pure _ h
  fail_restore-Stays reason restore stack_overflow h = Ensures-pure _ h

  resources_applied-Stays : (r : Returned) → IsUntimed r.0 → Stays (resources_applied ix c r)
  unfolding resources_applied update_restore_state
  resources_applied-Stays (restore, some fault) h = fail_restore-Stays _ restore fault h
  resources_applied-Stays (restore, none) h = update-Untimed _ h

  crds_applied-Stays :
      (st : Cache) (restore : Restore) (fault : Option Fault)
      → IsUntimed restore
      → Stays (crds_applied ix c st restore fault)
  unfolding crds_applied apply_indexed_resource
  crds_applied-Stays st restore (some fault) h = fail_restore-Stays _ restore fault h
  crds_applied-Stays st restore none h =
      let collected = call (c.collect_hook_pods restore) in
      Ensures-bind (λ (r : Returned). IsUntimed r.0) (collected >>= hooks_collected ix c st restore)
        (resources_applied ix c)
        (Adding-bind collected (hooks_collected ix c st restore) (Adding-call _)
          (λ r. hooks_collected-Stays st restore r h))
        resources_applied-Stays

  pub sync_metadata_restore-Stays :
      (restore : Restore) (st : Cache)
      → IsUntimed restore
      → Ensures Untimed (λ (r : Returned). IsUntimed r.0) (sync_metadata_restore ix c restore st)
  unfolding sync_metadata_restore apply_crd
  sync_metadata_restore-Stays restore st h =
      search (Ensures-if, Ensures-pure, Adding-bind, crds_listed-Adding, crds_applied-Stays)
