-- ===== src/Backup/Objects.antt =====
-- What the collection of a backup's resources calls and does not implement: the cache of the
-- objects, the Kubernetes API, and conversions from unstructured objects.
pub mod Sample
use kahu.Unstructured.{Object, pointer, same_key, is_unstructured}
use kahu.Backup.Cluster.{Lookup}
use kahu.Utils.Select.{Regexp}
use Prim.Native.String.{◌++◌ as append}
use kahu.Base.{
  String, ◌≡◌, ◌↔◌, ◌⊎◌, Bool, true, false, Option, none, some, List, [], ◌==◌, if◌then◌else◌,
  contains, Error, Result, ok, Member,
}

-- client-go's `cache.Indexer`, with the indices by kind, by the names of namespaces and by those of
-- the objects without a namespace, and what its
-- documentation says of them. The index by kind holds what `runtime.Unstructured` matches, which is
-- the pointers.
pub record ObjectCache : Type 1 where
  pub Cache : Type 0
  pub empty : Cache
  pub list : Cache → List Object
  pub add : Object → Cache → Cache × Option Error
  pub by_kind : String → Cache → Result (List Object)
  pub namespaces : Cache → List String
  pub cluster_names : Cache → List String
  pub by_cluster_name : String → Cache → Result (List Object)
  pub list-empty : list empty ≡ []
  -- `Add` puts the object in the place of the one with its key.
  pub add-list :
      (o : Object) (st : Cache) {st' : Cache}
      → add o st ≡ (st', none)
      → (p : Object)
      → Member p (list st') ↔ ((p ≡ o) ⊎ (Member p (list st) × (same_key p o ≡ false)))
  -- An `Add` that fails, as it does for an object without a key, leaves the cache as it is.
  pub add-failed :
      (o : Object) (st : Cache) {st' : Cache} {e : Error} → add o st ≡ (st', some e) → st' ≡ st
  pub by_kind-list :
      (kind : String) (st : Cache) {os : List Object}
      → by_kind kind st ≡ ok os
      → (p : Object) → Member p os ↔ (Member p (list st) × (p.form ≡ pointer) × (p.kind ≡ kind))
  pub namespaces-list :
      (st : Cache) (name : String)
      → (contains (namespaces st) name ≡ true) ↔ (
          (p : Object) × Member p (list st)
          × (is_unstructured p.form ≡ true)
          × (p.kind ≡ "Namespace")
          × (p.name ≡ name))

-- `metav1.APIResource`
pub record ApiResource : Type 0 where
  pub group : String
  pub version : String
  pub name : String
  pub kind : String

-- `ResourceIdentifier` of controllers/backup/dependencyresolver.go, and an `ObjectReference`.
pub record Identifier : Type 0 where
  pub group_version : String
  pub kind : String
  pub namespace : String
  pub name : String

-- A claim as the dependency of a stateful set, and as an object of its own.
pub record BoundClaim : Type 0 where
  pub name : String
  pub volume_name : String
  pub storage_class_name : Option String

-- The sources of a pod's volume that are read.
pub record PodVolume : Type 0 where
  pub claim : Option String
  pub config_map : Option String
  pub secret : Option String

-- An object with the specification of a pod, its own or that of its template.
pub record Workload : Type 0 where
  pub namespace : String
  pub volumes : List PodVolume

-- `selector` is the text of the label selector.
pub record StatefulSet : Type 0 where
  pub workload : Workload
  pub has_templates : Bool
  pub selector : String

-- The Kubernetes API, as it stands while a backup's resources are collected; the discovery helper
-- (discovery); the conversions of apimachinery, and the text of a `GroupVersionResource`;
-- `strings.Split` at the commas; and regular expressions.
pub record Api (World : Type 0) : Type 0 where
  pub scoped_resources : World → Result (List ApiResource)
  pub resource_by_kind : String → World → Result ApiResource
  pub list_namespaces : World → Lookup (List Object)
  pub list_objects : ApiResource → String → String → World → Lookup (List Object)
  pub get_object : ApiResource → String → String → World → Result Object
  pub list_claims : String → String → World → Result (List BoundClaim)
  pub namespace_object : Object → Result Object
  pub to_volume : Object → Result (Option Identifier)
  pub to_claim : Object → Result BoundClaim
  pub to_pod : Object → Result Workload
  pub to_deployment : Object → Result Workload
  pub to_replica_set : Object → Result Workload
  pub to_daemon_set : Object → Result Workload
  pub to_stateful_set : Object → Result StatefulSet
  pub as_selector : String → Result String
  pub everything : String
  pub split : String → List String
  pub compile : Regexp
  pub resource_text : ApiResource → String

-- `schema.GroupVersion.String`
unfoldable pub group_version : ApiResource → String
group_version r = if r.group == "" then r.version else append r.group (append "/" r.version)

-- What the dynamic client returns, with the version and the kind that the code sets.
unfoldable pub typed : ApiResource → Object → Object
typed r o = record o { form = pointer; api_version = group_version r; kind = r.kind }
