-- ===== src/Restore/Volumes/Untimed.antt =====
-- The volume stage of a restore writes no completion time, and leaves the stage.
use kahu.Backup.Cluster.{Lookup, found, not_found, lookup_error}
use kahu.Restore.Objects.{Restore, RestoreStage, Claim, NewContent, VolumeRestoreContent}
use kahu.Restore.Filters.{Indexer}
use kahu.Restore.Cluster.{Cluster, Action, Fault}
use kahu.Restore.History.{
  Ensures, Ensures-bind, Adding-bind, Ensures-pure, Ensures-if, Adding-call, Adding-ask,
}
use kahu.Restore.Updaters.{Returned, update_restore_status, update_restore_state}
use kahu.Restore.Updaters.Kept.{KeepsStatus}
use kahu.Restore.Populate.{failed_for}
use kahu.Restore.Untimed.{Untimed, IsAt, update-Stays, annotate-Stays}
use kahu.Restore.Contents.Works.{construct_contents-Adding}
use kahu.Restore.Volumes.Works.{
  ensure_namespaces-Adding, apply_listed-Adding, ensure_contents-Adding,
}
use kahu.Restore.Volumes.{
  ensure_pvc_namespace, ensure_storage_class, contents_ensured, classes_ensured, namespaces_ensured,
  volume_restore, contents_constructed, complete_annotated, complete_volumes, status_listed,
  check_volume_restore_status, claim_failed, fail_claims, claim_found, check_claims, check_parsed,
  check_pvc_restored, pvcs_checked, claims_parsed, sync_volume_restore,
}
use kahu.Base.{
  ℕ, String, Bool, true, false, Option, none, some, List, [], ◌∷◌, Result, ok, err, ◌>>=◌, pure,
}

module _ (ix : Indexer) (c : Cluster ix.Cache) (kept : KeepsStatus c) (stage : RestoreStage) where
  open ix use {Cache}

  abbrev Stays : Action c Returned → Type 0
  Stays act = Ensures Untimed (λ (r : Returned). IsAt stage r.0) act

  contents_ensured-Stays :
      (restore : Restore) (fault : Option Fault)
      → IsAt stage restore
      → Stays (contents_ensured ix c restore fault)
  unfolding contents_ensured update_restore_state
  contents_ensured-Stays restore (some fault) h = Ensures-pure _ h
  contents_ensured-Stays restore none h = update-Stays c kept stage _ h

  classes_ensured-Stays :
      (restore : Restore) (vs : List NewContent) (fault : Option Fault)
      → IsAt stage restore
      → Stays (classes_ensured ix c restore vs fault)
  unfolding classes_ensured
  classes_ensured-Stays restore vs (some fault) h = Ensures-pure _ h
  classes_ensured-Stays restore vs none h =
      Adding-bind _ _ (ensure_contents-Adding ix c vs) (λ e. contents_ensured-Stays restore e h)

  namespaces_ensured-Stays :
      (restore : Restore) (st : Cache) (claims : List Claim) (vs : List NewContent)
      (fault : Option Fault)
      → IsAt stage restore
      → Stays (namespaces_ensured ix c restore st claims vs fault)
  unfolding namespaces_ensured ensure_storage_class
  namespaces_ensured-Stays restore st claims vs (some fault) h = Ensures-pure _ h
  namespaces_ensured-Stays restore st claims vs none h =
      Adding-bind _ _ (apply_listed-Adding ix c claims _)
        (λ e. classes_ensured-Stays restore vs e h)

  contents_constructed-Stays :
      (restore : Restore) (st : Cache) (claims : List Claim) (r : Result (List NewContent))
      → IsAt stage restore
      → Stays (contents_constructed ix c restore st claims r)
  unfolding contents_constructed volume_restore ensure_pvc_namespace
  contents_constructed-Stays restore st claims (err e) h = Ensures-pure _ h
  contents_constructed-Stays restore st claims (ok vs) h =
      Adding-bind _ _ (ensure_namespaces-Adding ix c _)
        (λ e. namespaces_ensured-Stays restore st claims vs e h)

  complete_annotated-Stays : (r : Returned) → IsAt stage r.0 → Stays (complete_annotated ix c r)
  unfolding complete_annotated update_restore_state
  complete_annotated-Stays (restore, some fault) h = Ensures-pure _ h
  complete_annotated-Stays (restore, none) h = update-Stays c kept stage _ h

  complete_volumes-Stays :
      (restore : Restore) → IsAt stage restore → Stays (complete_volumes ix c restore)
  unfolding complete_volumes
  complete_volumes-Stays restore h =
      Ensures-bind _ _ _ (annotate-Stays c kept stage _ _ restore h) complete_annotated-Stays

  status_listed-Stays :
      (count : ℕ) (restore : Restore) (r : Result (List VolumeRestoreContent))
      → IsAt stage restore
      → Stays (status_listed ix c count restore r)
  unfolding status_listed
  status_listed-Stays count restore (err e) h = Ensures-pure _ h
  status_listed-Stays count restore (ok []) h = Ensures-pure _ h
  status_listed-Stays count restore (ok (v ∷ vs)) h =
      Ensures-if _ (complete_volumes ix c restore) (pure (restore, none))
        (λ _. complete_volumes-Stays restore h) (λ _. Ensures-pure (restore, none) h)

  -- The check of the claims: the restore is the one given, or that one as a failed one.
  abbrev Checks : Action c (Restore × Bool × Option Fault) → Type 0
  Checks act = Ensures Untimed (λ (r : Restore × Bool × Option Fault). IsAt stage r.0) act

  claim_failed-Checks :
      (restore : Restore) (r : Returned) → IsAt stage restore → Checks (claim_failed ix c restore r)
  unfolding claim_failed
  claim_failed-Checks restore r h = Ensures-pure _ h

  fail_claims-Checks :
      (restore : Restore) (reason : String)
      → IsAt stage restore
      → Checks (fail_claims ix c restore reason)
  unfolding fail_claims
  fail_claims-Checks restore reason h =
      let failing = failed_for reason restore in
      Ensures-bind (λ (r : Returned). IsAt stage r.0) (update_restore_status c failing)
        (claim_failed ix c failing) (update-Stays c kept stage failing h)
        (λ r _. claim_failed-Checks failing r h)

  claim_found-Checks :
      (restore : Restore) (rest : Action c (Restore × Bool × Option Fault)) (name : String)
      (l : Lookup Claim)
      → IsAt stage restore
      → Checks rest
      → Checks (claim_found ix c restore rest name l)
  unfolding claim_found
  claim_found-Checks restore rest name (not_found e) h r = fail_claims-Checks restore _ h
  claim_found-Checks restore rest name (lookup_error e) h r = Ensures-pure _ h
  claim_found-Checks restore rest name (found claim) h r = search (Ensures-if, fail_claims-Checks)

  check_claims-Checks :
      (restore : Restore) (claims : List Claim)
      → IsAt stage restore
      → Checks (check_claims ix c restore claims)
  unfolding check_claims
  check_claims-Checks restore [] h = Ensures-pure _ h
  check_claims-Checks restore (claim ∷ claims) h =
      Adding-bind _ _ (Adding-ask _)
        (λ l. claim_found-Checks restore _ claim.name l h (check_claims-Checks restore claims h))

  check_parsed-Checks :
      (restore : Restore) (r : Result (List Claim))
      → IsAt stage restore
      → Checks (check_parsed ix c restore r)
  unfolding check_parsed
  check_parsed-Checks restore (err e) h = Ensures-pure _ h
  check_parsed-Checks restore (ok claims) h = check_claims-Checks restore claims h

  pvcs_checked-Stays :
      (r : Restore × Bool × Option Fault) → IsAt stage r.0 → Stays (pvcs_checked ix c r)
  unfolding pvcs_checked update_restore_state
  pvcs_checked-Stays (restore, restored, some fault) h = Ensures-pure _ h
  pvcs_checked-Stays (restore, false, none) h = Ensures-pure _ h
  pvcs_checked-Stays (restore, true, none) h = update-Stays c kept stage _ h

  claims_parsed-Stays :
      (restore : Restore) (st : Option Cache) (r : Result (List Claim))
      → IsAt stage restore
      → Stays (claims_parsed ix c restore st r)
  unfolding claims_parsed check_volume_restore_status
  claims_parsed-Stays restore st (err e) h = update-Stays c kept stage _ h
  claims_parsed-Stays restore st (ok []) h = complete_volumes-Stays restore h
  claims_parsed-Stays restore none (ok (claim ∷ claims)) h = Ensures-pure _ h
  claims_parsed-Stays restore (some st) (ok (claim ∷ claims)) h = search (
    Ensures-if, Adding-bind, Adding-call, status_listed-Stays, construct_contents-Adding,
    contents_constructed-Stays,
  )

  checked-Stays :
      (restore : Restore) (st : Option Cache)
      → IsAt stage restore
      → Stays (check_pvc_restored ix c restore st >>= pvcs_checked ix c)
  unfolding check_pvc_restored
  checked-Stays restore st h =
      Ensures-bind _ _ _ (check_parsed-Checks restore _ h) pvcs_checked-Stays

  pub sync_volume_restore-Stays :
      (restore : Restore) (st : Option Cache)
      → IsAt stage restore
      → Ensures Untimed (λ (r : Returned). IsAt stage r.0) (sync_volume_restore ix c restore st)
  unfolding sync_volume_restore
  sync_volume_restore-Stays restore st h =
      search (Ensures-if, Ensures-pure, checked-Stays, claims_parsed-Stays)
