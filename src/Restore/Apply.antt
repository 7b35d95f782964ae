-- ===== src/Restore/Apply.antt =====
-- `applyResource`, `preProcessResource`, `ensureNamespace`, `deleteRestoredResource` and
-- `isCleanupNeeded` of controllers/restore/metadatarestore.go.
pub mod Works
use kahu.Backup.Cluster.{Lookup, found, not_found, lookup_error}
use kahu.Restore.Objects.{Restore, RestoreResource}
use kahu.Restore.Filters.{Object}
use kahu.Restore.Cluster.{
  Cluster, Action, Fault, raised, nil_pointer, Creation, created, already_exists, create_failed,
  Existing, made_namespace, applied, deleted_resource, call, ask, log,
}
use kahu.Restore.Resolver.{pv_kind, pvc_kind}
use kahu.Base.{
  String, Bool, false, not, ◌||◌, Option, none, some, List, [], ◌∷◌, ◌==◌, if◌then◌else◌, contains,
  Error, Result, ok, err, at_key, ◌>>=◌, ◌>>◌, pure,
}

-- controllers/restore/constants.go
abbrev ann_restore_identifier : String
ann_restore_identifier = "kahu.io/restore-name"

abbrev workload_kinds : List String
workload_kinds = "Deployment" ∷ "DaemonSet" ∷ "StatefulSet" ∷ "ReplicaSet" ∷ []

pub as_fault : Option Error → Option Fault
as_fault none = none
as_fault (some e) = some (raised e)

-- An object that exists by now is as good as a created one.
of_creation : Creation → Option Fault
of_creation created = none
of_creation (already_exists e) = none
of_creation (create_failed e) = some (raised e)

annotated_with : Option String → String → Bool
annotated_with none name = false
annotated_with (some value) name = value == name

-- The annotation of the restore, whose name is not empty, is there, and the object is no claim and no volume.
unfoldable pub is_cleanup_needed : Lookup Existing → String → Bool
unfolding annotated_with
is_cleanup_needed (not_found e) restore_name = false
is_cleanup_needed (lookup_error e) restore_name = false
is_cleanup_needed (found existing) restore_name =
    let annotation = at_key existing.annotations ann_restore_identifier in
    if not (annotated_with annotation restore_name)
    then false
    else not (existing.kind == pvc_kind || existing.kind == pv_kind)

module _ {Cache : Type 0} (c : Cluster Cache) where
  open c use {
    World, discover, get_namespace, create_namespace, get_object, create_object, apply_workload,
    apply_pod, get_restored, delete_restored,
  }

  create_missing : String → Lookup (Unit {0}) → Action c (Option Fault)
  create_missing namespace (found n) = pure none
  create_missing namespace _ = do
    log (made_namespace namespace)
    e ← call (create_namespace namespace)
    pure (as_fault e)

  pub ensure_namespace : String → Action c (Option Fault)
  ensure_namespace namespace =
      if namespace == ""
      then pure none
      else ask (get_namespace namespace) >>= create_missing namespace

  -- A nil restore is read by the two handlers for pods.
  create_with_hooks :
      (Object → Restore → World → Option Error × World)
      → Object
      → Option Restore
      → Action c (Option Fault)
  create_with_hooks handler o none = pure (some nil_pointer)
  create_with_hooks handler o (some restore) = do
    log (applied o)
    e ← call (handler o restore)
    pure (as_fault e)

  create_plain : Object → Action c (Option Fault)
  create_plain o = do
    log (applied o)
    creation ← call (create_object o)
    pure (of_creation creation)

  create_by_kind : Object → Option Restore → Action c (Option Fault)
  create_by_kind o restore =
      if contains workload_kinds o.kind
      then create_with_hooks apply_workload o restore
      else if o.kind == "Pod"
      then create_with_hooks apply_pod o restore
      else create_plain o

  -- Whatever the error of the lookup is, the object is then created.
  unless_exists : Object → Option Restore → Lookup Existing → Action c (Option Fault)
  unless_exists o restore (found existing) = pure none
  unless_exists o restore _ = create_by_kind o restore

  preprocessed : Object → Option Restore → Option Fault → Action c (Option Fault)
  preprocessed o restore (some fault) = pure (some fault)
  preprocessed o restore none = ask (get_object o) >>= unless_exists o restore

  discovered : Object → Option Restore → Result (Unit {0}) → Action c (Option Fault)
  discovered o restore (err e) = pure (some (raised e))
  discovered o restore (ok _) = ensure_namespace o.namespace >>= preprocessed o restore

  pub apply_resource : Object → Option Restore → Action c (Option Fault)
  apply_resource o restore = discovered o restore (discover o.api_version o.kind)

  unfoldable pub cleanup_found :
      RestoreResource → String → Lookup Existing → Action c (Option Error)
  cleanup_found resource restore_name existing =
      if is_cleanup_needed existing restore_name
      then log (deleted_resource resource) >> call (delete_restored resource)
      else pure none

  unfoldable pub cleanup_discovered :
      RestoreResource → String → Result (Unit {0}) → Action c (Option Error)
  cleanup_discovered resource restore_name (err e) = pure (some e)
  cleanup_discovered resource restore_name (ok _) =
      ask (get_restored resource) >>= cleanup_found resource restore_name

  unfoldable pub delete_restored_resource : RestoreResource → String → Action c (Option Error)
  delete_restored_resource resource restore_name =
      cleanup_discovered resource restore_name (discover resource.api_version resource.kind)
