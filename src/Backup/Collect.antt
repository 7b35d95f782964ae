-- ===== src/Backup/Collect.antt =====
-- controllers/backup/backupresources.go: which objects of the cluster belong to a backup.
pub mod Kinds
pub mod Chosen
pub mod Adds
pub mod Listed
pub mod Taken
pub mod Names
mod Examples
use Prim.Native.String.{◌++◌ as append}
use kahu.Api.{Backup, BackupSpec, BackupResource, ObjectMeta, ResourceSpec, empty_status}
use kahu.Unstructured.{Object, pointer, is_unstructured}
use kahu.Utils.Kinds.{node_kind, event_kind, volume_snapshot_kind, endpoint_slice_kind}
use kahu.Utils.Metadata.{contains_annotation, get_annotation}
use kahu.Utils.Select.{Regexp}
use kahu.Backup.Cluster.{Cluster, Action, Lookup, found, not_found, lookup_error}
use kahu.Backup.Updaters.{Returned, update_backup_status}
use kahu.Backup.Objects.{ObjectCache, ApiResource, Api, typed}
use kahu.Backup.Dependency.{resolve_all}
use kahu.Base.{
  ℕ, String, Bool, true, false, not, ◌&&◌, ◌||◌, Option, none, some, List, [], ◌∷◌, ◌++◌, map, ◌==◌,
  if◌then◌else◌, is_empty, keep, any, contains, Error, wrap, Result, ok, err, Dict, put, Fault,
  raised, ◌>>=◌, pure,
}

-- `excludeResourceType`
abbrev pub exclude_resource_type : List String
exclude_resource_type = node_kind ∷ event_kind ∷ volume_snapshot_kind ∷ endpoint_slice_kind ∷ []

-- controllers/backup/constants.go
abbrev ann_backup_content_synced : String
ann_backup_content_synced = "kahu.io/backup-content-sync-completed"

-- The annotation that names the kinds that a backup supports.
abbrev pub ann_resource_selector : String
ann_resource_selector = "kahu.io/backup-resources"

-- `filteredAPIResourcesByAnnotation`
annotated_resources : (String → List String) → String × Bool → List ApiResource → List ApiResource
annotated_resources split (resources, false) rs = rs
annotated_resources split (resources, true) rs = keep (λ r. contains (split resources) r.kind) rs

filter_by_annotation : (String → List String) → ObjectMeta → List ApiResource → List ApiResource
filter_by_annotation split meta rs =
    if contains_annotation (some meta) ann_resource_selector
    then annotated_resources split (get_annotation (some meta) ann_resource_selector) rs
    else rs

-- `filterApiResourceByIncludeResources`
filter_by_include : List ResourceSpec → List ApiResource → List ApiResource
filter_by_include specs rs =
    let kinds = map (λ spec. spec.kind) specs in
    if is_empty kinds then rs else keep (λ r. contains kinds r.kind) rs

-- The kinds that an exclusion leaves out whole.
excluded_kinds : List ResourceSpec → List String
excluded_kinds specs =
    map (λ spec. spec.kind) (keep (λ spec. spec.name == "" || spec.name == "*") specs)

-- `filterApiResourceByExcludeResources`
filter_by_exclude : List ResourceSpec → List ApiResource → List ApiResource
filter_by_exclude specs rs =
    let kinds = excluded_kinds specs in
    if is_empty kinds then rs else keep (λ r. not (contains kinds r.kind)) rs

-- `filterApiResourceByBackup`
filter_by_backup : BackupSpec → List ApiResource → List ApiResource
filter_by_backup spec rs =
    filter_by_exclude spec.exclude_resources (filter_by_include spec.include_resources rs)

-- The filters of `filteredAPIResources`.
pub filter_resources : (String → List String) → Backup → List ApiResource → List ApiResource
filter_resources split backup rs = filter_by_backup backup.spec (
    filter_by_annotation split backup.object_meta
      (keep (λ r. not (contains exclude_resource_type r.kind)) rs))

-- The test of one specification in the loops of `isResourceNeedBackup`.
matches_name : Option (String → Bool) → String → Bool
matches_name none name = false
matches_name (some matches) name = matches name

is_selected : Regexp → Object → ResourceSpec → Bool
is_selected compile o spec =
    if not (spec.kind == o.kind)
    then false
    else if spec.is_regex
    then matches_name (compile spec.name) o.name
    else o.name == "" || o.name == spec.name

pub is_resource_need_backup : Regexp → BackupSpec → Object → Bool
is_resource_need_backup compile spec o =
    if o.owned
    then false
    else if any (is_selected compile o) spec.exclude_resources
    then false
    else if is_empty spec.include_resources
    then true
    else any (is_selected compile o) spec.include_resources

-- The test of `collectNamespacesWithBackupSpec`.
pub is_namespace_chosen : BackupSpec → String → Bool
is_namespace_chosen spec name =
    if contains spec.exclude_namespaces name
    then false
    else if not (is_empty spec.include_namespaces) && not (contains spec.include_namespaces name)
    then false
    else true

-- `namespaceList`, a map by names.
pub choose_namespaces : BackupSpec → List Object → Dict Object → Dict Object
choose_namespaces spec [] chosen = chosen
choose_namespaces spec (ns ∷ nss) chosen =
    choose_namespaces spec nss
      (if is_namespace_chosen spec ns.name then put chosen ns.name ns else chosen)

-- `&unstructured.Unstructured{}` without contents.
abbrev nil_object : Object
nil_object = record {
  form = pointer;
  uid = "";
  api_version = "";
  kind = "";
  namespace = "";
  name = "";
  labels = [];
  owned = false;
}

-- An error of the conversion is logged, and what it returned is taken all the same.
converted_or_nil : Result Object → Object
converted_or_nil (ok o) = o
converted_or_nil (err e) = nil_object

to_backup_resource : Object → BackupResource
to_backup_resource o = record {
  api_version = o.api_version;
  kind = o.kind;
  resource_name = o.name;
  namespace = o.namespace;
  resource_status = "";
}

joined : List Object → Result (List Object) → Result (List Object)
joined os (err e) = err e
joined os (ok rest) = ok (os ++ rest)

module _ (oc : ObjectCache) {World : Type 0} (api : Api World) (w : World) where
  open oc use {Cache, list, add, by_kind, namespaces, cluster_names, by_cluster_name}
  open api use {
    scoped_resources, list_namespaces, list_objects, namespace_object, as_selector, everything,
    split, compile, resource_text,
  }

  with_resources : Backup → Result (List ApiResource) → Result (List ApiResource)
  with_resources backup (err e) = err (wrap e "unable to get namespaces API resource")
  with_resources backup (ok rs) = ok (filter_resources split backup rs)

  pub filtered_api_resources : Backup → Result (List ApiResource)
  filtered_api_resources backup = with_resources backup (scoped_resources w)

  -- Adds objects in turn, up to the first error.
  pub and_next : (Cache → Cache × Option Error) → Cache × Option Error → Cache × Option Error
  and_next next (st, none) = next st
  and_next next (st, some e) = (st, some e)

  add_namespaces : Dict Object → Cache → Cache × Option Error
  add_namespaces [] st = (st, none)
  add_namespaces ((name, ns) ∷ nss) st =
      let ns_object = record ns { kind = "Namespace"; api_version = "v1" } in
      and_next (add_namespaces nss) (add (converted_or_nil (namespace_object ns_object)) st)

  namespaces_listed : BackupSpec → Lookup (List Object) → Cache → Cache × Option Error
  namespaces_listed spec (not_found e) st = (st, none)
  namespaces_listed spec (lookup_error e) st = (st, some (wrap e "unable to get namespaces"))
  namespaces_listed spec (found nss) st = add_namespaces (choose_namespaces spec nss []) st

  pub collect_namespaces : BackupSpec → Cache → Cache × Option Error
  collect_namespaces spec st = namespaces_listed spec (list_namespaces w) st

  with_listed : ApiResource → Lookup (List Object) → Result (List Object) → Result (List Object)
  with_listed r (not_found e) rest = rest
  with_listed r (lookup_error e) rest =
      err (wrap e (append "failed to list resource info for " (resource_text r)))
  with_listed r (found os) rest = joined (map (typed r) os) rest

  pub collect_namespace_resources : String → List ApiResource → String → Result (List Object)
  collect_namespace_resources ns [] selector = ok []
  collect_namespace_resources ns (r ∷ rs) selector =
      with_listed r (list_objects r ns selector w) (collect_namespace_resources ns rs selector)

  with_context : String → Cache × Option Error → Cache × Option Error
  with_context context (st, none) = (st, none)
  with_context context (st, some e) = (st, some (wrap e context))

  pub add_objects : List Object → Cache → Cache × Option Error
  add_objects [] st = (st, none)
  add_objects (o ∷ os) st =
      and_next (add_objects os)
        (with_context (append "unable to populate backup cache for resource " o.name) (add o st))

  -- `applyResourceFilters` on what was collected, and the loop that fills the cache.
  add_collected : BackupSpec → String → Result (List Object) → Cache → Cache × Option Error
  add_collected spec ns (err e) st =
      (st, some (wrap e (append "unable to retrieve resource for namespace " ns)))
  add_collected spec ns (ok os) st = add_objects (keep (is_resource_need_backup compile spec) os) st

  pub collect_all :
      BackupSpec → List ApiResource → String → List String → Cache → Cache × Option Error
  collect_all spec rs selector [] st = (st, none)
  collect_all spec rs selector (ns ∷ nss) st =
      and_next (collect_all spec rs selector nss)
        (add_collected spec ns (collect_namespace_resources ns rs selector) st)

  selector_of : Option String → Result String
  selector_of none = ok everything
  selector_of (some label) = elim (as_selector label) [
    | ok selector ↦ ok selector
    | err e ↦ err (wrap e (append "invalid label selector " label))
  ]

  with_selector : BackupSpec → List ApiResource → Result String → Cache → Cache × Option Error
  with_selector spec rs (err e) st = (st, some e)
  with_selector spec rs (ok selector) st = collect_all spec rs selector (namespaces st) st

  resources_filtered : BackupSpec → Result (List ApiResource) → Cache → Cache × Option Error
  resources_filtered spec (err e) st = (st, some (wrap e "unable to get API resources"))
  resources_filtered spec (ok rs) st =
      and_next (with_selector spec rs (selector_of spec.label)) (collect_namespaces spec st)

  -- `populateCacheFromBackupSpec` up to the resolution of the dependencies.
  pub collect : Backup → Cache → Cache × Option Error
  collect backup st = resources_filtered backup.spec (filtered_api_resources backup) st

  and_resolve : ℕ → Cache × Option Error → Cache × Option Fault
  and_resolve depth (st, some e) = (st, some (raised e))
  and_resolve depth (st, none) = resolve_all oc api w depth st

  populate_cache : ℕ → Backup → Cache → Cache × Option Fault
  populate_cache depth backup st = and_resolve depth (collect backup st)

  get_resources : Cache → List Object
  get_resources st = keep (λ o. is_unstructured o.form) (list st)

  unstructured_of : Result (List Object) → List Object
  unstructured_of (err e) = []
  unstructured_of (ok os) = keep (λ o. is_unstructured o.form) os

  pub get_resources_by_kind : String → Cache → List Object
  get_resources_by_kind kind st = unstructured_of (by_kind kind st)

  -- The first error ends the loop; what was found before is returned.
  gathered : Result (List Object) → List Object → List Object
  gathered (err e) rest = []
  gathered (ok os) rest = keep (λ o. is_unstructured o.form) os ++ rest

  gather_cluster : List String → Cache → List Object
  gather_cluster [] st = []
  gather_cluster (name ∷ names) st = gathered (by_cluster_name name st) (gather_cluster names st)

  pub get_cluster_scoped_resources : Cache → List Object
  get_cluster_scoped_resources st = gather_cluster (cluster_names st) st

  -- It reads the index of the objects without a namespace.
  pub get_namespace_scoped_resources : Cache → List Object
  get_namespace_scoped_resources st = gather_cluster (cluster_names st) st

module _ (oc : ObjectCache) (c : Cluster) (api : Api c.World) where
  open oc use {Cache, list, empty}
  open c use {World}

  returned : Returned → Backup × Option Fault
  returned (backup, none) = (backup, none)
  returned (backup, some e) = (backup, some (raised e))

  -- `syncWithServer`
  sync_with_server : Backup → Cache → Action World (Backup × Option Fault)
  sync_with_server backup st s =
      let resources = map to_backup_resource (get_resources oc api s.world st) in
      (update_backup_status c backup (record empty_status { resource_list = resources })
          >>= λ updated. pure (returned updated))
        s

  cache_populated : Backup → Cache × Option Fault → Action World (Backup × Option Fault)
  cache_populated backup (st, some fault) = pure (backup, some fault)
  cache_populated backup (st, none) = sync_with_server backup st

  -- `Sync`, on the empty cache that `NewBackupResources` makes.
  pub sync : ℕ → Backup → Action World (Backup × Option Fault)
  sync depth backup s =
      if contains_annotation (some backup.object_meta) ann_backup_content_synced
      then (((backup, none), s))
      else cache_populated backup (populate_cache oc api s.world depth backup empty) s
