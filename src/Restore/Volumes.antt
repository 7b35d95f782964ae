-- ===== src/Restore/Volumes.antt =====
-- controllers/restore/volumerestore.go: the volume stage of a restore.
mod Works
pub mod Untimed
pub mod Waits
mod Examples
use Prim.Native.String.{◌++◌ as append}
use kahu.Backup.Cluster.{Lookup, found, not_found, lookup_error}
use kahu.Restore.Objects.{
  Restore, Claim, NewContent, VolumeRestoreContent, completed, processing, is_completed_state,
  is_processing_state,
}
use kahu.Restore.Filters.{Object, Indexer, is_unstructured}
use kahu.Restore.Cluster.{
  Cluster, Action, Fault, raised, nil_pointer, made_content, wrap_fault, call, ask, log,
}
use kahu.Restore.Updaters.{Returned, update_restore_status, update_restore_state, annotate_restore}
use kahu.Restore.Resolver.{sc_kind}
use kahu.Restore.Populate.{failed_for}
use kahu.Restore.Contents.{construct_contents, parse_restore_pvc}
use kahu.Restore.Apply.{apply_resource, ensure_namespace, as_fault}
use kahu.Base.{
  ℕ, ◌+◌, String, Bool, true, false, not, ◌&&◌, Option, none, some, List, [], ◌∷◌, ◌==◌, leb,
  if◌then◌else◌, length, keep, any, message, wrap, Result, ok, err, at_key, ◌>>=◌, ◌>>◌, pure,
}

-- controllers/restore/constants.go
abbrev pub ann_volume_restore_completed : String
ann_volume_restore_completed = "kahu.io/volume-restore-completed"

pub has_annotation : Restore → String → Bool
has_annotation restore annotation = elim (at_key restore.object_meta.annotations annotation) [
  | none ↦ false
  | some _ ↦ true
]

-- The contents' volumes whose progress is 100.
pub count_restored : List VolumeRestoreContent → ℕ
count_restored [] = 0
count_restored (v ∷ vs) =
    let rest = count_restored vs in length (keep (λ n. leb 100 n && leb n 100) v.progress) + rest

-- The loop over the storage classes appends an object before its conversion and again after it.
pub listed_classes : (Object → Result (Unit {0})) → List Object → Result (List Object)
listed_classes convert [] = ok []
listed_classes convert (o ∷ os) =
    let rest = listed_classes convert os in
    if is_unstructured o.form
    then elim (convert o) [
      | err e ↦ err (wrap e "Failed to covert unstructured resource to PVC for resolution")
      | ok _ ↦ elim rest [ err e ↦ err e | ok classes ↦ ok (o ∷ o ∷ classes) ]
    ]
    else rest

module _ (ix : Indexer) (c : Cluster ix.Cache) where
  open ix use {Cache, by_kind}
  open c use {World, to_storage_class, get_claim, list_contents, create_content}

  -- A call's error ends the loop, and otherwise the rest of it runs.
  and_next : Action c (Option Fault) → Option Fault → Action c (Option Fault)
  and_next rest (some fault) = pure (some fault)
  and_next rest none = rest

  -- The set of the claims' namespaces, in the order of their first claims.
  namespaces_of : List Claim → List String
  namespaces_of [] = []
  namespaces_of (claim ∷ claims) =
      let rest = namespaces_of claims in
      claim.namespace ∷ keep (λ ns. not (ns == claim.namespace)) rest

  pub ensure_namespaces : List String → Action c (Option Fault)
  ensure_namespaces [] = pure none
  ensure_namespaces (ns ∷ nss) = ensure_namespace c ns >>= and_next (ensure_namespaces nss)

  ensure_pvc_namespace : List Claim → Action c (Option Fault)
  ensure_pvc_namespace claims = ensure_namespaces (namespaces_of claims)

  class_applied : Action c (Option Fault) → Option Fault → Action c (Option Fault)
  class_applied rest (some fault) =
      pure (some (wrap_fault fault "Unable to create storage class resource"))
  class_applied rest none = rest

  apply_classes : String → List Object → Action c (Option Fault)
  apply_classes class [] = pure none
  apply_classes class (o ∷ os) =
      let rest = apply_classes class os in
      if o.name == class then apply_resource c o none >>= class_applied rest else rest

  class_found : String → Bool → Action c (Option Fault)
  class_found class true = pure none
  class_found class false = pure (
      some (
        raised (
          message (
            append "restore cache donot have storage class ("
              (append class ").Check backup data")))))

  -- The name is read through its pointer, whether or not there is a class to compare it with.
  apply_class : List Object → Option String → Action c (Option Fault)
  apply_class classes none = pure (some nil_pointer)
  apply_class classes (some class) =
      apply_classes class classes
      >>= and_next (class_found class (any (λ o. o.name == class) classes))

  apply_all_classes : List Object → List Claim → Action c (Option Fault)
  apply_all_classes classes [] = pure none
  apply_all_classes classes (claim ∷ claims) =
      apply_class classes claim.storage_class_name >>= and_next (apply_all_classes classes claims)

  pub apply_listed : List Claim → Result (List Object) → Action c (Option Fault)
  apply_listed claims (err e) = pure (some (raised e))
  apply_listed claims (ok classes) = apply_all_classes classes claims

  class_objects : Result (List Object) → Result (List Object)
  class_objects (err e) = err (wrap e "storage class not available in restore cache")
  class_objects (ok os) = listed_classes to_storage_class os

  pub ensure_storage_class : Cache → List Claim → Action c (Option Fault)
  ensure_storage_class st claims = apply_listed claims (class_objects (by_kind sc_kind st))

  pub ensure_contents : List NewContent → Action c (Option Fault)
  ensure_contents [] = pure none
  ensure_contents (v ∷ vs) = do
    log (made_content v)
    e ← call (create_content v)
    and_next (ensure_contents vs) (as_fault e)

  contents_ensured : Restore → Option Fault → Action c Returned
  contents_ensured restore (some fault) = pure (restore, some fault)
  contents_ensured restore none = update_restore_state c restore processing

  classes_ensured : Restore → List NewContent → Option Fault → Action c Returned
  classes_ensured restore contents (some fault) = pure (restore, some fault)
  classes_ensured restore contents none = ensure_contents contents >>= contents_ensured restore

  namespaces_ensured :
      Restore → Cache → List Claim → List NewContent → Option Fault → Action c Returned
  namespaces_ensured restore st claims contents (some fault) = pure (restore, some fault)
  namespaces_ensured restore st claims contents none =
      ensure_storage_class st claims >>= classes_ensured restore contents

  pub volume_restore : Restore → Cache → List Claim → List NewContent → Action c Returned
  volume_restore restore st claims contents =
      ensure_pvc_namespace claims >>= namespaces_ensured restore st claims contents

  contents_constructed : Restore → Cache → List Claim → Result (List NewContent) → Action c Returned
  contents_constructed restore st claims (err e) =
      pure (restore, some (raised (wrap e "unable to construct volume restore content list")))
  contents_constructed restore st claims (ok contents) = volume_restore restore st claims contents

  complete_annotated : Returned → Action c Returned
  complete_annotated (restore, some fault) = pure (restore, some fault)
  complete_annotated (restore, none) = update_restore_state c restore completed

  -- The annotation, and then the state.
  complete_volumes : Restore → Action c Returned
  complete_volumes restore =
      annotate_restore c ann_volume_restore_completed "true" restore >>= complete_annotated

  status_listed : ℕ → Restore → Result (List VolumeRestoreContent) → Action c Returned
  status_listed count restore (err e) = pure (restore, some (raised e))
  status_listed count restore (ok []) = pure (restore, none)
  status_listed count restore (ok (v ∷ vs)) =
      let restored = count_restored (v ∷ vs) in
      if leb restored count && leb count restored
      then complete_volumes restore
      else pure (restore, none)

  pub check_volume_restore_status : ℕ → Restore → Action c Returned
  check_volume_restore_status count restore =
      call (list_contents restore.name) >>= status_listed count restore

  claim_failed : Restore → Returned → Action c (Restore × Bool × Option Fault)
  claim_failed restore (updated, fault) = pure (restore, false, fault)

  -- The restore that the API returned is dropped; the caller goes on with the one that failed.
  fail_claims : Restore → String → Action c (Restore × Bool × Option Fault)
  fail_claims restore reason =
      let failing = failed_for reason restore in
      update_restore_status c failing >>= claim_failed failing

  claim_found :
      Restore
      → Action c (Restore × Bool × Option Fault)
      → String
      → Lookup Claim
      → Action c (Restore × Bool × Option Fault)
  claim_found restore rest name (not_found e) =
      fail_claims restore (append "Restore PVC (" (append name ") not available"))
  claim_found restore rest name (lookup_error e) = pure (restore, false, some (raised e))
  claim_found restore rest name (found claim) =
      if claim.volume_name == ""
      then fail_claims restore
          (append "Restored PVC (" (append name ") is not bound. Considering PVC restore failed"))
      else rest

  check_claims : Restore → List Claim → Action c (Restore × Bool × Option Fault)
  check_claims restore [] = pure (restore, true, none)
  check_claims restore (claim ∷ claims) =
      let rest = check_claims restore claims in
      ask (get_claim claim.namespace claim.name) >>= claim_found restore rest claim.name

  check_parsed : Restore → Result (List Claim) → Action c (Restore × Bool × Option Fault)
  check_parsed restore (err e) = pure (restore, false, some (raised e))
  check_parsed restore (ok claims) = check_claims restore claims

  pub check_pvc_restored : Restore → Option Cache → Action c (Restore × Bool × Option Fault)
  check_pvc_restored restore st = check_parsed restore (parse_restore_pvc ix c st)

  pvcs_checked : Restore × Bool × Option Fault → Action c Returned
  pvcs_checked (restore, restored, some fault) = pure (restore, some fault)
  pvcs_checked (restore, false, none) = pure (restore, none)
  pvcs_checked (restore, true, none) = update_restore_state c restore completed

  -- The claims of the cache: none, or some that are being restored, or some that are not yet.
  claims_parsed : Restore → Option Cache → Result (List Claim) → Action c Returned
  claims_parsed restore st (err e) =
      update_restore_status c (failed_for "Unable to parse PVC" restore)
  claims_parsed restore st (ok []) = complete_volumes restore
  claims_parsed restore none (ok (claim ∷ claims)) = pure (restore, some nil_pointer)
  claims_parsed restore (some st) (ok (claim ∷ claims)) =
      if is_processing_state restore.status.state
      then check_volume_restore_status (length (claim ∷ claims)) restore
      else construct_contents ix c restore.name st (claim ∷ claims)
        >>= contents_constructed restore st (claim ∷ claims)

  pub sync_volume_restore : Restore → Option Cache → Action c Returned
  sync_volume_restore restore st =
      if is_completed_state restore.status.state
      then pure (restore, none)
      else if has_annotation restore ann_volume_restore_completed
      then check_pvc_restored restore st >>= pvcs_checked
      else claims_parsed restore st (parse_restore_pvc ix c st)
