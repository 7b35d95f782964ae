-- ===== src/Restore/Process/Tidied.antt =====
-- What a cleanup without an error leaves of a restore's resources.
use kahu.Utils.Metadata.{set_annotation}
use kahu.Restore.Objects.{
  Restore, RestoreResource, RestoreStage, RestoreState, finished, completed, is_finished_stage,
  is_completed_state,
}
use kahu.Restore.Filters.{Indexer}
use kahu.Restore.Cluster.{Cluster, Machine}
use kahu.Restore.Updaters.{patch_restore}
use kahu.Restore.Apply.{delete_restored_resource}
use kahu.Restore.Sync.{restore_completed, with_meta}
use kahu.Restore.Process.{
  both_clean, delete_resources, mark_clean, cleanup_restored_metadata, cleanup,
}
use kahu.Base.{
  ℕ, ◌≡◌, refl, sym, ap, inl, inr, Bool, true, false, Option, none, some, List, [], ◌∷◌, arith,
  Bool-cases, Error,
}

module _ (ix : Indexer) (c : Cluster ix.Cache) (stack : ℕ) (restore : Restore) where
  -- The deletion of resources one after the other from one state to another, each asked for whatever
  -- the others returned, and whether none returned an error.
  pub data Tried
      : List RestoreResource
        → Bool
        → Machine c.World ix.Cache
        → Machine c.World ix.Cache
        → Type 0 where
    none_left : (s : Machine c.World ix.Cache) → Tried [] true s s
    deleted :
        (r : RestoreResource) (rs : List RestoreResource) (clean : Bool)
        (s s' : Machine c.World ix.Cache)
        → (delete_restored_resource c r restore.name s).0 ≡ none
        → Tried rs clean (delete_restored_resource c r restore.name s).1 s'
        → Tried (r ∷ rs) clean s s'
    refused :
        (r : RestoreResource) (rs : List RestoreResource) (clean : Bool)
        (s s' : Machine c.World ix.Cache) (e : Error)
        → (delete_restored_resource c r restore.name s).0 ≡ some e
        → Tried rs clean (delete_restored_resource c r restore.name s).1 s'
        → Tried (r ∷ rs) false s s'

  abbrev HasSucceeded : Type 0
  HasSucceeded = (restore.status.stage ≡ finished) × (restore.status.state ≡ completed)

  -- A restore that succeeded keeps its resources. For any other the deletion of each was asked for;
  -- some of them failed and nothing is written down, or none did and the annotation that says so was
  -- written without an error.
  pub data IsTidied (s s' : Machine c.World ix.Cache) : Type 0 where
    was_kept : HasSucceeded → s' ≡ s → IsTidied s s'
    was_refused : ¬ HasSucceeded → Tried restore.status.resources false s s' → IsTidied s s'
    was_cleaned :
        (s'' : Machine c.World ix.Cache)
        → ¬ HasSucceeded
        → Tried restore.status.resources true s s''
        → (patch_restore c restore
            (with_meta restore
              (set_annotation (some restore.object_meta) "kahu.io/restore-cleanup-done" "true"))
            s'').0.1
          ≡ none
        → (patch_restore c restore
            (with_meta restore
              (set_annotation (some restore.object_meta) "kahu.io/restore-cleanup-done" "true"))
            s'').1
          ≡ s'
        → IsTidied s s'

  finished_stage : (stage : RestoreStage) → is_finished_stage stage ≡ true → stage ≡ finished
  unfolding is_finished_stage
  finished_stage finished h = refl
  finished_stage _ h = cc

  completed_state : (state : RestoreState) → is_completed_state state ≡ true → state ≡ completed
  unfolding is_completed_state
  completed_state completed h = refl
  completed_state _ h = cc

  succeeded : restore_completed restore ≡ true → HasSucceeded
  unfolding restore_completed
  succeeded h = (finished_stage _ (ground arith), completed_state _ (ground arith))

  not_succeeded : restore_completed restore ≡ false → ¬ HasSucceeded
  unfolding restore_completed is_finished_stage is_completed_state
  not_succeeded h (stage, state) = let h' = rw stage at h in let h'' = rw state at h' in cc

  after_one-Tried :
      (r : RestoreResource) (rs : List RestoreResource) (s s' : Machine c.World ix.Cache)
      (clean : Bool) (e : Option Error)
      → (delete_restored_resource c r restore.name s).0 ≡ e
      → Tried rs clean (delete_restored_resource c r restore.name s).1 s'
      → Tried (r ∷ rs) (both_clean ix c stack clean e) s s'
  unfolding both_clean
  after_one-Tried r rs s s' clean none h rest = deleted r rs clean s s' h rest
  after_one-Tried r rs s s' clean (some e) h rest = refused r rs clean s s' e h rest

  delete_resources-Tried :
      (rs : List RestoreResource) (s : Machine c.World ix.Cache)
      → Tried rs
          (delete_resources ix c stack restore.name rs s).0
          s
          (delete_resources ix c stack restore.name rs s).1
  unfolding delete_resources
  delete_resources-Tried [] s = none_left s
  delete_resources-Tried (r ∷ rs) s =
      after_one-Tried r rs s _ _ _ refl
        (delete_resources-Tried rs (delete_restored_resource c r restore.name s).1)

  marked_IsTidied :
      (clean : Bool) (s s' s'' : Machine c.World ix.Cache)
      → ¬ HasSucceeded
      → Tried restore.status.resources clean s s'
      → mark_clean ix c stack restore clean s' ≡ (none, s'')
      → IsTidied s s''
  unfolding mark_clean
  marked_IsTidied false s s' s'' lasting tried h =
      was_refused lasting (rw (← ap (λ r. r.1) h) tried)
  marked_IsTidied true s s' s'' lasting tried h =
      was_cleaned s' lasting tried (ap (λ r. r.0) h) (ap (λ r. r.1) h)

  pub cleanup-IsTidied :
      (s s' : Machine c.World ix.Cache) → cleanup ix c stack restore s ≡ (none, s') → IsTidied s s'
  unfolding cleanup cleanup_restored_metadata
  cleanup-IsTidied s s' h = elim (Bool-cases (restore_completed restore)) [
    | inl t ↦ let h' = rw t at h in was_kept (succeeded t) (sym (ap (λ r. r.1) h'))
    | inr f ↦
        marked_IsTidied _ s _ s' (not_succeeded f)
          (delete_resources-Tried restore.status.resources s) (rw f at h)
  ]
