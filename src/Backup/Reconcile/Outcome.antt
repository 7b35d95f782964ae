-- ===== src/Backup/Reconcile/Outcome.antt =====
-- When the reconciler acts on a backup.
use kahu.Api.{Backup, volumes}
use kahu.Backup.Cluster.{Cluster, Machine, ContentRef}
use kahu.Backup.Volumes.{has_annotation, ann_volume_backup_completed}
use kahu.Backup.Reconcile.{
  is_failed, is_completed, Verdict, all_done, some_pending, one_failed, scan, in_volumes,
  is_reconcile_required, act_on, reconcile_contents, reconcile_volumes, reconcile_backup,
  annotate_by_name, ann_volume_backup_delete_completed, deleted_listed, is_content_deleted,
}
use kahu.Base.{
  ◌≡◌, refl, ◌⊎◌, inl, inr, true, false, List, [], ◌∷◌, arith, Bool-cases, is_empty, any, all,
  Error, Result, ok, err,
}

failed-completed : (v : ContentRef) → is_completed v ≡ true → is_failed v ≡ false
unfolding is_failed is_completed
failed-completed v h = ground arith

scan-all_done : (vs : List ContentRef) → scan vs ≡ all_done → all is_completed vs ≡ true
unfolding scan all
scan-all_done [] h = refl
scan-all_done (v ∷ vs) h = ground (arith, scan-all_done vs)

scan_completed : (vs : List ContentRef) → all is_completed vs ≡ true → scan vs ≡ all_done
unfolding scan all
scan_completed [] h = refl
scan_completed (v ∷ vs) h = ground (arith, scan_completed vs, failed-completed v)

scan-one_failed : (vs : List ContentRef) → scan vs ≡ one_failed → any is_failed vs ≡ true
unfolding scan any
scan-one_failed [] h = cc
scan-one_failed (v ∷ vs) h = ground (arith, scan-one_failed vs)

module _ (c : Cluster) (backup : Backup) (s : Machine c.World) where
  -- Why the reconciler wrote: the backup is in the volume stage and not yet marked, and the API
  -- listed contents of which one has failed, or at least one and all completed.
  pub record IsSettled : Type 0 where
    pub in_stage : backup.status.stage ≡ volumes
    pub unmarked : has_annotation backup ann_volume_backup_completed ≡ false
    pub contents : List ContentRef
    pub listed : (c.list_contents backup.name s.world).0 ≡ ok contents
    outcome :
        (any is_failed contents ≡ true)
        ⊎ ((is_empty contents ≡ false) × (all is_completed contents ≡ true))

  required :
      is_reconcile_required backup ≡ true
      → (backup.status.stage ≡ volumes)
        × (has_annotation backup ann_volume_backup_completed ≡ false)
  unfolding is_reconcile_required in_volumes
  required h = ground arith

  verdict_step :
      (r : Verdict) (v : ContentRef) (vs : List ContentRef) (s' : Machine c.World)
      → scan (v ∷ vs) ≡ r
      → ((act_on c backup r s').1.history ≡ s'.history)
        ⊎ ((any is_failed (v ∷ vs) ≡ true)
            ⊎ ((is_empty (v ∷ vs) ≡ false) × (all is_completed (v ∷ vs) ≡ true)))
  unfolding act_on
  verdict_step some_pending v vs s' e = inl refl
  verdict_step one_failed v vs s' e = inr (inl (scan-one_failed (v ∷ vs) e))
  verdict_step all_done v vs s' e = inr (inr (refl, scan-all_done (v ∷ vs) e))

  contents_step :
      (r : Result (List ContentRef))
      → is_reconcile_required backup ≡ true
      → (c.list_contents backup.name s.world).0 ≡ r
      → ((reconcile_contents c backup r
            (record s { world = (c.list_contents backup.name s.world).1 })).1.history
          ≡ s.history)
        ⊎ IsSettled
  unfolding reconcile_contents
  contents_step (err e) h listed = inl refl
  contents_step (ok []) h listed = inl refl
  contents_step (ok (v ∷ vs)) h listed = elim (verdict_step (scan (v ∷ vs)) v vs _ refl) [
    | inl still ↦ inl still
    | inr outcome ↦ inr (record {
      in_stage = (required h).0;
      unmarked = (required h).1;
      contents = v ∷ vs;
      listed = listed;
      outcome = outcome;
    })
  ]

  volumes_step : ((reconcile_volumes c backup s).1.history ≡ s.history) ⊎ IsSettled
  unfolding reconcile_volumes
  volumes_step = elim (Bool-cases (is_reconcile_required backup)) [
    | inl t ↦ rw t (contents_step (c.list_contents backup.name s.world).0 t refl)
    | inr f ↦ rw f (inl refl)
  ]

  reconcile_live :
      backup.deleted ≡ false → reconcile_backup c backup s ≡ reconcile_volumes c backup s
  unfolding reconcile_backup
  reconcile_live live = simp (live) refl

  -- For a backup that is not being deleted, the reconciler writes nothing unless the backup is in the
  -- volume stage and not yet marked, and the API listed contents of which one has failed, or at least
  -- one and all of them completed.
  pub reconcile_backup-IsSettled :
      backup.deleted ≡ false → ((reconcile_backup c backup s).1.history ≡ s.history) ⊎ IsSettled
  reconcile_backup-IsSettled live = rw (reconcile_live live) volumes_step

  -- For a backup that is being deleted, an error of the API counts as "no contents are left": the
  -- reconciler goes on to mark the backup as one whose volume backups are gone.
  pub reconcile_backup_error :
      (e : Error) (w : c.World)
      → backup.deleted ≡ true
      → c.list_contents backup.name s.world ≡ (err e, w)
      → (reconcile_backup c backup s).1
        ≡ (annotate_by_name c ann_volume_backup_delete_completed backup.name
            (record s { world = w })).1
  unfolding reconcile_backup deleted_listed is_content_deleted
  reconcile_backup_error e w dying listed = rw dying (rw listed)
