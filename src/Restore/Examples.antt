-- ===== src/Restore/Examples.antt =====
-- Runs of the restore controller on the small cluster.
use kahu.Restore.Objects.{is_finished_stage}
use kahu.Restore.Filters.{Object}
use kahu.Restore.Cluster.{wrote_status, ClaimRef}
use kahu.Restore.Sample.{list_indexer, pod}
use kahu.Restore.Sample.Cluster.{cluster, machine, a_restore, pvc}
use kahu.Restore.History.{Adds}
use kahu.Restore.Updaters.Kept.{KeepsStatus}
use kahu.Restore.Untimed.{Untimed}
use kahu.Restore.Resolver.{resolve_all, pv_kind}
use kahu.Restore.Resolver.Depth.{is_overflow, resolve_all-ends}
use kahu.Restore.Validate.{validate_restore, validation_errors, failed_with, describe}
use kahu.Restore.Validate.Decides.{accepts, is_some, validate_restore-accepts}
use kahu.Restore.Sync.{sync_restore}
use kahu.Restore.Sync.Untimed.{sync_restore-Untimed}
use kahu.Restore.Reconcile.{reconcile_restore}
use kahu.Restore.Reconcile.Outcome.{IsSettled, reconcile_restore-IsSettled}
use kahu.Base.{◌≡◌, refl, ◌⊎◌, true, false, none, some, List, [], ◌∷◌, map, ◌==◌, ok}

cluster-kept : KeepsStatus cluster
cluster-kept = record {
  status_kept = λ restore w. refl;
  patch_kept = λ restore updated patch w e. cc;
}

sync_restore-Untimed_example :
    Adds Untimed [] (sync_restore list_indexer cluster 2 a_restore machine).1.history
unfolding is_finished_stage
sync_restore-Untimed_example =
    sync_restore-Untimed list_indexer cluster 2 a_restore machine cluster-kept refl refl

validate_restore-accepts_example :
    (accepts list_indexer cluster a_restore 0 ≡ true
      → validate_restore list_indexer cluster a_restore machine ≡ (none, machine))
    × (accepts list_indexer cluster a_restore 0 ≡ false
        → (is_some (validate_restore list_indexer cluster a_restore machine).0 ≡ true)
          × ((validate_restore list_indexer cluster a_restore machine).1.history
              ≡ wrote_status (
                  failed_with
                    (map describe (validation_errors list_indexer cluster a_restore 0))
                    a_restore)
                ∷ []))
validate_restore-accepts_example = validate_restore-accepts list_indexer cluster a_restore machine

abbrev two_volumes : List Object
two_volumes = record (pod "7" "" "data") { kind = pv_kind } ∷ pvc "data" ∷ []

claims_only :
    (o : Object) (claim_ref : ClaimRef)
    → cluster.to_volume o ≡ ok (some claim_ref)
    → (claim_ref.kind == pv_kind) ≡ false
claims_only o claim_ref e = let k : claim_ref.kind ≡ "PersistentVolumeClaim" = cc in rw k refl

resolve_all-ends_example :
    is_overflow (resolve_all list_indexer cluster 2 two_volumes two_volumes).1 ≡ false
resolve_all-ends_example =
    resolve_all-ends list_indexer cluster 0 two_volumes two_volumes claims_only

reconcile_restore-IsSettled_example :
    ((reconcile_restore cluster a_restore machine).1.history ≡ [])
    ⊎ IsSettled cluster a_restore machine
reconcile_restore-IsSettled_example = reconcile_restore-IsSettled cluster a_restore machine refl
