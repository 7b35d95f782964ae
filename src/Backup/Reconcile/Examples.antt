-- ===== src/Backup/Reconcile/Examples.antt =====
-- A run of the reconciler.
use kahu.Backup.Reconcile.{
  reconcile, reconcile_listed, reconcile_all, reconcile_backup, reconcile_volumes,
  is_reconcile_required, in_volumes,
}
use kahu.Backup.Sample.{cluster, with_cache}
use kahu.Base.{◌≡◌, refl, []}

-- The one backup that the cluster lists is in no stage: it is passed over.
nothing_to_do : (reconcile cluster (with_cache [])).1 ≡ with_cache []
unfolding reconcile reconcile_listed reconcile_all reconcile_backup reconcile_volumes
    is_reconcile_required in_volumes
nothing_to_do = refl
