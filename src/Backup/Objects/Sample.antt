-- ===== src/Backup/Objects/Sample.antt =====
-- A cache that is a list, and a cluster with a claim, its volume and its class, which refer to each
-- other.
use mathlib.Core.Path.{subst}
use kahu.Unstructured.{Object, Form, pointer, same_key, is_unstructured, is_pointer}
use kahu.Utils.Kinds.{pvc_kind, pv_kind, sc_kind}
use kahu.Backup.Cluster.{found}
use kahu.Backup.Objects.{ObjectCache, ApiResource, Workload, Api}
use kahu.Base.{
  String, ◌≡◌, refl, sym, ap, ◌↔◌, ◌⊎◌, inl, inr, Bool, true, false, not, ◌&&◌, Option, none, some,
  List, [], ◌∷◌, map, arith, eq_iff, ◌==◌, if◌then◌else◌, keep, contains, Error, Result, ok, Member,
  here, there, Member-cons, Member-keep, Member-map, contains-Member, keep-Member, map-Member,
  Member-of_contains,
}

abbrev pub add_to : Object → List Object → List Object × Option Error
add_to o st = (o ∷ keep (λ p. not (same_key p o)) st, none)

abbrev pub is_indexed : String → Object → Bool
is_indexed kind o = is_pointer o.form && o.kind == kind

abbrev pub is_namespace : Object → Bool
is_namespace o = is_unstructured o.form && o.kind == "Namespace"

abbrev pub of_kind : String → List Object → Result (List Object)
of_kind kind st = ok (keep (is_indexed kind) st)

abbrev pub names_of : List Object → List String
names_of st = map (λ o. o.name) (keep is_namespace st)

pub pointer_iff : (f : Form) → (is_pointer f ≡ true) ↔ (f ≡ pointer)
unfolding is_pointer
pointer_iff Form.pointer = (λ h. refl, λ h. refl)
pointer_iff Form.value = (λ h. cc, λ h. cc)
pointer_iff Form.other_type = (λ h. cc, λ h. cc)

pub add_to-list :
    (o : Object) (st : List Object) {st' : List Object}
    → add_to o st ≡ (st', none)
    → (p : Object) → Member p st' ↔ ((p ≡ o) ⊎ (Member p st × (same_key p o ≡ false)))
add_to-list o st {st'} e p = rw (← ap (λ r. r.0) e) (
  λ m.
      Member-cons (λ q. (q ≡ o) ⊎ (Member q st × (same_key q o ≡ false))) (inl refl)
        (λ q m'.
          let (old, h) = Member-keep (λ p'. not (same_key p' o)) st m' in inr (old, ground arith))
        p m,
  λ h. elim h [
    | inl same ↦ rw same here
    | inr (m, f) ↦ there (keep-Member (λ p'. not (same_key p' o)) m (rw f refl))
  ],
)

pub add_to-failed :
    (o : Object) (st : List Object) {st' : List Object} {e : Error}
    → add_to o st ≡ (st', some e)
    → st' ≡ st
add_to-failed o st h = cc

pub of_kind-list :
    (kind : String) (st : List Object) {os : List Object}
    → of_kind kind st ≡ ok os
    → (p : Object) → Member p os ↔ (Member p st × (p.form ≡ pointer) × (p.kind ≡ kind))
of_kind-list kind st {os} e p =
    let same : os ≡ keep (is_indexed kind) st = cc in
    rw same (
      λ m.
          let (old, h) = Member-keep (is_indexed kind) st m in
          (old, (pointer_iff p.form).0 (ground arith), (eq_iff p.kind kind).0 (ground arith)),
      λ (m, f, k).
          keep-Member (is_indexed kind) m (
            let f' = (pointer_iff p.form).1 f in let k' = (eq_iff p.kind kind).1 k in ground arith),
    )

pub names_of-list :
    (st : List Object) (name : String)
    → (contains (names_of st) name ≡ true) ↔ (
        (p : Object) × Member p st
        × (is_unstructured p.form ≡ true)
        × (p.kind ≡ "Namespace")
        × (p.name ≡ name))
names_of-list st name = (
  λ h.
      let (p, m, e) =
        Member-map (λ o. o.name) (keep is_namespace st) (Member-of_contains (names_of st) name h) in
      let (old, t) = Member-keep is_namespace st m in
      (p, old, ground arith, (eq_iff p.kind "Namespace").0 (ground arith), sym e),
  λ (p, m, u, k, e). contains-Member (names_of st) (
      subst (λ s. Member s (names_of st)) e
        (map-Member (λ o. o.name)
          (keep-Member is_namespace m (let k' = (eq_iff p.kind "Namespace").1 k in ground arith)))),
)

abbrev pub list_cache : ObjectCache
list_cache = record {
  Cache = List Object;
  empty = [];
  list = λ st. st;
  add = add_to;
  by_kind = of_kind;
  namespaces = names_of;
  cluster_names = λ st. map (λ o. o.name) (keep (λ o. o.namespace == "") st);
  by_cluster_name = λ name st. ok (keep (λ o. o.namespace == "" && o.name == name) st);
  list-empty = refl;
  add-list = add_to-list;
  add-failed = add_to-failed;
  by_kind-list = of_kind-list;
  namespaces-list = names_of-list;
}

abbrev pub object : String → String → String → String → String → Object
object uid api_version kind namespace name = record {
  form = pointer;
  uid = uid;
  api_version = api_version;
  kind = kind;
  namespace = namespace;
  name = name;
  labels = [];
  owned = false;
}

abbrev pub claim : Object
claim = object "u1" "v1" pvc_kind "shop" "data"

abbrev pub volume : Object
volume = object "u2" "v1" pv_kind "" "pv1"

abbrev pub class : Object
class = object "u3" "storage.k8s.io/v1" sc_kind "" "fast"

abbrev pub core_resource : String → String → ApiResource
core_resource name kind = record { group = ""; version = "v1"; name = name; kind = kind }

abbrev pub claims : ApiResource
claims = core_resource "persistentvolumeclaims" pvc_kind

abbrev pub resource_of : String → String → Result ApiResource
resource_of kind w = ok (
    if kind == pvc_kind
    then claims
    else if kind == pv_kind
    then core_resource "persistentvolumes" pv_kind
    else record {
      group = "storage.k8s.io";
      version = "v1";
      name = "storageclasses";
      kind = sc_kind;
    })

abbrev pub object_of : ApiResource → String → String → String → Result Object
object_of r namespace name w =
    ok (if r.kind == pvc_kind then claim else if r.kind == pv_kind then volume else class)

abbrev pub no_pods : Workload
no_pods = record { namespace = "shop"; volumes = [] }

abbrev pub shop : Object
shop = object "u0" "v1" "Namespace" "" "shop"

-- The world is not read.
abbrev pub api : Api String
api = record {
  scoped_resources = λ w. ok (claims ∷ []);
  resource_by_kind = resource_of;
  list_namespaces = λ w. found (shop ∷ []);
  list_objects = λ r ns selector w. found (claim ∷ []);
  get_object = object_of;
  list_claims = λ ns selector w. ok [];
  namespace_object = λ ns. ok ns;
  to_volume = λ o.
      ok (
        some (record { group_version = "v1"; kind = pvc_kind; namespace = "shop"; name = "data" }));
  to_claim =
      λ o. ok (record { name = "data"; volume_name = "pv1"; storage_class_name = some "fast" });
  to_pod = λ o. ok no_pods;
  to_deployment = λ o. ok no_pods;
  to_replica_set = λ o. ok no_pods;
  to_daemon_set = λ o. ok no_pods;
  to_stateful_set = λ o. ok (record { workload = no_pods; has_templates = false; selector = "" });
  as_selector = λ label. ok label;
  everything = "";
  split = λ s. s ∷ [];
  compile = λ pattern. some (λ name. pattern == name);
  resource_text = λ r. r.name;
}
