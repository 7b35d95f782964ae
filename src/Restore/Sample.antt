-- ===== src/Restore/Sample.antt =====
-- A cache that is a list, and a specification, on which the theorems are tried.
pub mod Cluster
use kahu.Api.{ResourceSpec}
use kahu.Restore.Objects.{RestoreSpec}
use kahu.Restore.Filters.{Object, pointer, Indexer, same_key, namespace_keys}
use kahu.Base.{
  String, ◌≡◌, refl, ap, Bool, true, false, not, ◌||◌, Option, none, some, List, [], ◌∷◌, map, ◌==◌,
  keep, any, contains, Error, Result, ok, Dict,
}

abbrev pub delete_from : Object → List Object → List Object × Option Error
delete_from o st = (keep (λ p. not (same_key p o)) st, none)

abbrev pub in_index : String → List Object → Result (List Object)
in_index ns st = ok (keep (λ o. contains (namespace_keys o) ns) st)

abbrev pub literal : String → String → Result Bool
literal pattern name = ok (pattern == name)

abbrev pub everything : String → Result (Dict String → Bool)
everything selector = ok (λ labels. true)

pub in_index-list :
    (ns : String) (st : List Object) {os : List Object}
    → in_index ns st ≡ ok os
    → (f : Object → Bool) → any f os ≡ any f (keep (λ o. contains (namespace_keys o) ns) st)
in_index-list ns st e f = cc

pub delete_from-list :
    (o : Object) (st : List Object) {st' : List Object}
    → delete_from o st ≡ (st', none)
    → st' ≡ keep (λ p. not (same_key p o)) st
delete_from-list o st e = cc

abbrev pub add_to : Object → List Object → List Object × Option Error
add_to o st = (o ∷ keep (λ p. not (same_key p o)) st, none)

abbrev pub of_kind : String → List Object → Result (List Object)
of_kind kind st = ok (keep (λ o. o.kind == kind) st)

pub add_to-list :
    (o : Object) (st : List Object) {st' : List Object}
    → add_to o st ≡ (st', none)
    → (f : Object → Bool) → any f st' ≡ (f o || any f (keep (λ p. not (same_key p o)) st))
unfolding any
add_to-list o st e f = rw (← ap (λ r. r.0) e) refl

pub of_kind-list :
    (kind : String) (st : List Object) {os : List Object}
    → of_kind kind st ≡ ok os
    → (f : Object → Bool) → any f os ≡ any f (keep (λ o. o.kind == kind) st)
of_kind-list kind st e f = cc

abbrev pub list_indexer : Indexer
list_indexer = record {
  Cache = List Object;
  list = λ st. st;
  index_values = λ st. map (λ o. o.namespace) st;
  by_index = in_index;
  delete = delete_from;
  add = add_to;
  by_kind = of_kind;
  empty = [];
  sorted = λ xs. xs;
  match_string = literal;
  as_selector = everything;
  by_index-list = in_index-list;
  delete-list = delete_from-list;
  add-list = add_to-list;
  by_kind-list = of_kind-list;
  list-empty = refl;
  contains-sorted = λ xs s. refl;
}

abbrev pub pod : String → String → String → Object
pod uid namespace name = record {
  form = pointer;
  uid = uid;
  api_version = "v1";
  kind = "Pod";
  namespace = namespace;
  name = name;
  labels = [];
  owned = false;
}

abbrev pub spec : String → Bool → ResourceSpec
spec name is_regex = record { name = name; kind = "Pod"; is_regex = is_regex }

-- Only the namespace `shop` is asked for.
abbrev pub restore_spec : RestoreSpec
restore_spec = record {
  backup_name = "daily";
  include_namespaces = "shop" ∷ [];
  exclude_namespaces = "test" ∷ [];
  include_resources = [];
  exclude_resources = spec "web" true ∷ [];
  label_selector = some "tier=front";
  namespace_mapping = [];
  resource_prefix = "";
  hooks = "";
}
