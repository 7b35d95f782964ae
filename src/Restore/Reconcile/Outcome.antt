-- ===== src/Restore/Reconcile/Outcome.antt =====
-- When the reconciler acts on a restore.
use kahu.Restore.Objects.{Restore, VolumeRestoreContent, volumes, is_volumes_stage}
use kahu.Restore.Cluster.{Cluster, Machine}
use kahu.Restore.Volumes.{has_annotation, ann_volume_restore_completed}
use kahu.Restore.Reconcile.{
  is_failed, is_completed, Verdict, all_done, some_pending, one_failed, scan, is_volumes_stage,
  is_reconcile_required, act_on, reconcile_contents, reconcile_volumes, reconcile_restore,
  annotate_by_name, ann_volume_restore_delete_completed, deleted_listed, is_content_deleted,
}
use kahu.Base.{
  ◌≡◌, refl, ◌⊎◌, inl, inr, true, false, List, [], ◌∷◌, arith, Bool-cases, is_empty, any, all,
  Error, Result, ok, err,
}

failed-completed : (v : VolumeRestoreContent) → is_completed v ≡ true → is_failed v ≡ false
unfolding is_failed is_completed
failed-completed v h = ground arith

scan-all_done : (vs : List VolumeRestoreContent) → scan vs ≡ all_done → all is_completed vs ≡ true
unfolding scan all
scan-all_done [] h = refl
scan-all_done (v ∷ vs) h = ground (arith, scan-all_done vs)

scan_completed : (vs : List VolumeRestoreContent) → all is_completed vs ≡ true → scan vs ≡ all_done
unfolding scan all
scan_completed [] h = refl
scan_completed (v ∷ vs) h = ground (arith, scan_completed vs, failed-completed v)

scan-one_failed : (vs : List VolumeRestoreContent) → scan vs ≡ one_failed → any is_failed vs ≡ true
unfolding scan any
scan-one_failed [] h = cc
scan-one_failed (v ∷ vs) h = ground (arith, scan-one_failed vs)

module _ {Cache : Type 0} (c : Cluster Cache) (restore : Restore) (s : Machine c.World Cache) where
  -- Why the reconciler wrote: the restore is in the volume stage and not yet marked, and the API
  -- listed contents of which one has failed, or at least one and all completed.
  pub record IsSettled : Type 0 where
    pub in_stage : restore.status.stage ≡ volumes
    pub unmarked : has_annotation restore ann_volume_restore_completed ≡ false
    pub contents : List VolumeRestoreContent
    pub listed : (c.list_contents restore.name s.world).0 ≡ ok contents
    outcome :
        (any is_failed contents ≡ true)
        ⊎ ((is_empty contents ≡ false) × (all is_completed contents ≡ true))

  required :
      is_reconcile_required restore ≡ true
      → (restore.status.stage ≡ volumes)
        × (has_annotation restore ann_volume_restore_completed ≡ false)
  unfolding is_reconcile_required is_volumes_stage
  required h = ground arith

  verdict_step :
      (r : Verdict) (v : VolumeRestoreContent) (vs : List VolumeRestoreContent)
      (s' : Machine c.World Cache)
      → scan (v ∷ vs) ≡ r
      → ((act_on c restore r s').1.history ≡ s'.history)
        ⊎ ((any is_failed (v ∷ vs) ≡ true)
            ⊎ ((is_empty (v ∷ vs) ≡ false) × (all is_completed (v ∷ vs) ≡ true)))
  unfolding act_on
  verdict_step some_pending v vs s' e = inl refl
  verdict_step one_failed v vs s' e = inr (inl (scan-one_failed (v ∷ vs) e))
  verdict_step all_done v vs s' e = inr (inr (refl, scan-all_done (v ∷ vs) e))

  contents_step :
      (r : Result (List VolumeRestoreContent))
      → is_reconcile_required restore ≡ true
      → (c.list_contents restore.name s.world).0 ≡ r
      → ((reconcile_contents c restore r
            (record s { world = (c.list_contents restore.name s.world).1 })).1.history
          ≡ s.history)
        ⊎ IsSettled
  unfolding reconcile_contents
  contents_step (err e) h listed = inl refl
  contents_step (ok []) h listed = inl refl
  contents_step (ok (v ∷ vs)) h listed = elim (verdict_step (scan (v ∷ vs)) v vs _ refl) [
    | inl still ↦ inl still
    | inr outcome ↦ inr (record {
      in_stage = (required h).0;
      unmarked = (required h).1;
      contents = v ∷ vs;
      listed = listed;
      outcome = outcome;
    })
  ]

  volumes_step : ((reconcile_volumes c restore s).1.history ≡ s.history) ⊎ IsSettled
  unfolding reconcile_volumes
  volumes_step = elim (Bool-cases (is_reconcile_required restore)) [
    | inl t ↦ rw t (contents_step (c.list_contents restore.name s.world).0 t refl)
    | inr f ↦ rw f (inl refl)
  ]

  reconcile_live :
      restore.deleted ≡ false → reconcile_restore c restore s ≡ reconcile_volumes c restore s
  unfolding reconcile_restore
  reconcile_live live = simp (live) refl

  -- For a restore that is not being deleted, the reconciler writes nothing unless the restore is in the
  -- volume stage and not yet marked, and the API listed contents of which one has failed, or at least
  -- one and all of them completed.
  pub reconcile_restore-IsSettled :
      restore.deleted ≡ false → ((reconcile_restore c restore s).1.history ≡ s.history) ⊎ IsSettled
  reconcile_restore-IsSettled live = rw (reconcile_live live) volumes_step

  -- For a restore that is being deleted, an error of the API counts as "no contents are left": the
  -- reconciler goes on to mark the restore as one whose volume restores are gone.
  pub reconcile_restore_error :
      (e : Error) (w : c.World)
      → restore.deleted ≡ true
      → c.list_contents restore.name s.world ≡ (err e, w)
      → (reconcile_restore c restore s).1
        ≡ (annotate_by_name c ann_volume_restore_delete_completed restore.name
            (record s { world = w })).1
  unfolding reconcile_restore deleted_listed is_content_deleted
  reconcile_restore_error e w dying listed = rw dying (rw listed)
