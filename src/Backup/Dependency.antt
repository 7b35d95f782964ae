-- ===== src/Backup/Dependency.antt =====
-- controllers/backup/dependencyresolver.go: the objects that the objects of a backup depend on.
pub mod Present
pub mod Closed
pub mod Ends
mod Examples
use kahu.Unstructured.{Object, is_unstructured}
use kahu.Utils.Kinds.{
  pod_kind, deployment_kind, replica_set_kind, stateful_set_kind, daemon_set_kind, config_map_kind,
  secret_kind, pvc_kind, pv_kind, sc_kind,
}
use kahu.Backup.Objects.{
  ObjectCache, ApiResource, Identifier, BoundClaim, PodVolume, Workload, StatefulSet, Api, typed,
}
use kahu.Base.{
  ℕ, zero, suc, String, Bool, false, ◌&&◌, Option, none, some, List, [], ◌∷◌, ◌++◌, ◌==◌,
  if◌then◌else◌, any, Error, wrap, Result, ok, err, Fault, raised, nil_pointer, stack_overflow,
}

-- What `GetDependency` returns, or that it read a nil pointer.
pub data Dependencies : Type 0 where
  depends : List Identifier → Dependencies
  unresolved : Error → Dependencies
  nil_class : Dependencies

pub data Provider : Type 0 where
  pv_provider pvc_provider pod_provider deployment_provider : Provider
  replica_set_provider daemon_set_provider stateful_set_provider : Provider

-- `getProvider` on the map of `getAllProviders`.
pub get_provider : String → Option Provider
get_provider kind =
    if kind == pv_kind
    then some pv_provider
    else if kind == pvc_kind
    then some pvc_provider
    else if kind == pod_kind
    then some pod_provider
    else if kind == deployment_kind
    then some deployment_provider
    else if kind == replica_set_kind
    then some replica_set_provider
    else if kind == daemon_set_kind
    then some daemon_set_provider
    else if kind == stateful_set_kind
    then some stateful_set_provider
    else none

-- An object of the core group, and a storage class.
core : String → String → String → Identifier
core kind namespace name = record {
  group_version = "v1";
  kind = kind;
  namespace = namespace;
  name = name;
}

class_identifier : String → Identifier
class_identifier name = record {
  group_version = "storage.k8s.io/v1";
  kind = sc_kind;
  namespace = "";
  name = name;
}

source_dependency : String → String → Option String → List Identifier
source_dependency kind namespace none = []
source_dependency kind namespace (some name) = core kind namespace name ∷ []

-- A volume of a claim is done with the claim.
volume_dependency : String → PodVolume → Option String → List Identifier
volume_dependency namespace volume (some claim) = core pvc_kind namespace claim ∷ []
volume_dependency namespace volume none =
    source_dependency config_map_kind namespace volume.config_map
    ++ source_dependency secret_kind namespace volume.secret

-- `getPodDependency`
pod_dependency : String → List PodVolume → List Identifier
pod_dependency namespace [] = []
pod_dependency namespace (volume ∷ volumes) =
    volume_dependency namespace volume volume.claim ++ pod_dependency namespace volumes

failed_to : String → Error → Dependencies
failed_to context e = unresolved (wrap e context)

-- `pvResolver.GetDependency`
volume_converted : Result (Option Identifier) → Dependencies
volume_converted (err e) = failed_to "Failed to covert unstructured resource to PV for resolution" e
volume_converted (ok none) = depends []
volume_converted (ok (some claim_ref)) = depends (claim_ref ∷ [])

bound_dependency : String → Option String → Dependencies
bound_dependency volume_name none = depends []
bound_dependency volume_name (some class) =
    if volume_name == ""
    then depends []
    else depends (class_identifier class ∷ core pv_kind "" volume_name ∷ [])

-- `pvcResolver.GetDependency`
claim_converted : Result BoundClaim → Dependencies
claim_converted (err e) = failed_to "Failed to covert unstructured resource to PVC for resolution" e
claim_converted (ok claim) = bound_dependency claim.volume_name claim.storage_class_name

-- `GetDependency` of pods, deployments, replica sets and daemon sets.
workload_converted : String → Result Workload → Dependencies
workload_converted context (err e) = failed_to context e
workload_converted context (ok workload) =
    depends (pod_dependency workload.namespace workload.volumes)

-- The storage class of each claim is read through its pointer.
listed_claim : String → BoundClaim → Option String → Dependencies → Dependencies
listed_claim namespace claim none rest = nil_class
listed_claim namespace claim (some class) nil_class = nil_class
listed_claim namespace claim (some class) (unresolved e) = unresolved e
listed_claim namespace claim (some class) (depends ds) = depends (
    core pvc_kind namespace claim.name
    ∷ core pv_kind "" claim.volume_name
    ∷ class_identifier class
    ∷ ds)

-- The loop over the claims of a stateful set, before the dependencies of its pods.
claims_dependency : String → List BoundClaim → List Identifier → Dependencies
claims_dependency namespace [] pods = depends pods
claims_dependency namespace (claim ∷ claims) pods =
    listed_claim namespace claim claim.storage_class_name (claims_dependency namespace claims pods)

claims_listed : String → Result (List BoundClaim) → List Identifier → Dependencies
claims_listed namespace (err e) pods = failed_to "unable to list PVC fo statefulset" e
claims_listed namespace (ok claims) pods = claims_dependency namespace claims pods

module _ {World : Type 0} (api : Api World) where
  open api use {
    resource_by_kind, get_object, list_claims, to_volume, to_claim, to_pod, to_deployment,
    to_replica_set, to_daemon_set, to_stateful_set,
  }

  -- `statefulsetResolver.GetDependency`
  stateful_set_converted : World → Result StatefulSet → Dependencies
  stateful_set_converted w (err e) =
      failed_to "Failed to covert unstructured resource to PVC for resolution" e
  stateful_set_converted w (ok set) =
      let namespace = set.workload.namespace in
      let pods = pod_dependency namespace set.workload.volumes in
      if set.has_templates
      then claims_listed namespace (list_claims namespace set.selector w) pods
      else depends pods

  get_dependency : Provider → World → Object → Dependencies
  get_dependency pv_provider w o = volume_converted (to_volume o)
  get_dependency pvc_provider w o = claim_converted (to_claim o)
  get_dependency pod_provider w o =
      workload_converted "Failed to covert unstructured resource to Pod for resolution" (to_pod o)
  get_dependency deployment_provider w o =
      workload_converted "Failed to covert unstructured resource to Deployment for resolution"
        (to_deployment o)
  get_dependency replica_set_provider w o =
      workload_converted "Failed to covert unstructured resource to replicaset for resolution"
        (to_replica_set o)
  get_dependency daemon_set_provider w o =
      workload_converted "Failed to covert unstructured resource to DaemonSet for resolution"
        (to_daemon_set o)
  get_dependency stateful_set_provider w o = stateful_set_converted w (to_stateful_set o)

  provided : Option Provider → World → Object → Dependencies
  provided none w o = depends []
  provided (some provider) w o = get_dependency provider w o

  -- The dependencies of an object, none where its kind has no provider.
  pub dependencies : World → Object → Dependencies
  dependencies w o = provided (get_provider o.kind) w o

  get_typed : Identifier → World → Result ApiResource → Result Object
  get_typed d w (err e) = err e
  get_typed d w (ok r) = elim (get_object r d.namespace d.name w) [
    | err e ↦ err e
    | ok o ↦ ok (typed r o)
  ]

  -- The object of an identifier, with the version and the kind that discovery gives.
  pub fetch : World → Identifier → Result Object
  fetch w d = get_typed d w (resource_by_kind d.kind w)

pub answers : Identifier → Object → Bool
answers d o =
    d.group_version == o.api_version
    && d.kind == o.kind
    && d.name == o.name
    && d.namespace == o.namespace

module _ (oc : ObjectCache) {World : Type 0} (api : Api World) (w : World) where
  open oc use {Cache, list, add, by_kind}

  -- The cache after a run, and what ended it.
  abbrev pub Run : Type 0
  Run = Cache × Option Fault

  found_among : Identifier → Result (List Object) → Bool
  found_among d (err e) = false
  found_among d (ok os) = any (λ o. is_unstructured o.form && answers d o) os

  pub already_exist : Identifier → Cache → Bool
  already_exist d st = found_among d (by_kind d.kind st)

  added : (Cache → Run) → Cache × Option Error → Run
  added next (st, some e) = (st, some (raised e))
  added next (st, none) = next st

  fetched : (Object → Cache → Run) → Result Object → Cache → Run
  fetched next (err e) st = (st, some (raised e))
  fetched next (ok o) st = added (next o) (add o st)

  -- `populateDependency`; `next` is `resolve`.
  populate_dependency : (Object → Cache → Run) → Identifier → Cache → Run
  populate_dependency next d st = fetched next (fetch api w d) st

  -- An error is logged and the rest runs; a crash ends the run.
  and_rest : (Cache → Run) → Run → Run
  and_rest rest (st, none) = rest st
  and_rest rest (st, some (raised e)) = rest st
  and_rest rest (st, some nil_pointer) = (st, some nil_pointer)
  and_rest rest (st, some stack_overflow) = (st, some stack_overflow)

  populate_all : (Object → Cache → Run) → List Identifier → Cache → Run
  populate_all next [] st = (st, none)
  populate_all next (d ∷ ds) st =
      let rest = populate_all next ds in
      if already_exist d st then rest st else and_rest rest (populate_dependency next d st)

  resolve_with : (Object → Cache → Run) → Dependencies → Cache → Run
  resolve_with next (depends ds) st = populate_all next ds st
  resolve_with next (unresolved e) st = (st, none)
  resolve_with next nil_class st = (st, some nil_pointer)

  -- `resolve`, with the depth of calls that the stack has room for.
  pub resolve : ℕ → Object → Cache → Run
  resolve zero o st = (st, some stack_overflow)
  resolve (suc depth) o st = resolve_with (resolve depth) (dependencies api w o) st

  resolve_list : ℕ → List Object → Cache → Run
  resolve_list depth [] st = (st, none)
  resolve_list depth (o ∷ os) st =
      let rest = resolve_list depth os in
      if is_unstructured o.form then and_rest rest (resolve depth o st) else rest st

  -- `Resolve`, over the objects that the cache lists at its start.
  pub resolve_all : ℕ → Cache → Run
  resolve_all depth st = resolve_list depth (list st) st
