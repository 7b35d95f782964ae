-- ===== src/Restore/Filters.antt =====
-- controllers/restore/filters.go: which of the objects of a backup a restore takes, and
-- controllers/restore/restorecontroller.go: the key and the namespace index of their cache.
pub mod Excluded
pub mod Kept
pub mod Stages
pub mod Selected
pub mod Sound
mod Examples
use kahu.Api.{ResourceSpec}
pub use kahu.Unstructured.{Form, pointer, value, other_type, Object}
unfoldable pub use kahu.Unstructured.{same_key, is_unstructured, is_pointer}
use kahu.Restore.Objects.{RestoreSpec}
use kahu.Base.{
  String, ◌≡◌, Bool, true, false, not, ◌&&◌, ◌||◌, Option, none, some, List, [], ◌∷◌, ◌++◌, ◌==◌,
  if◌then◌else◌, is_empty, keep, any, contains, Error, message, wrap, Result, ok, err, Dict,
}

-- The values of an object in `backupObjectNamespaceIndex`.
pub namespace_keys : Object → List String
namespace_keys o = if o.namespace == "" then [] else o.namespace ∷ []

-- client-go's `cache.Indexer` and `sets.String`, `regexp.MatchString`, and apimachinery's
-- selectors, with what their documentation says of the first two.
pub record Indexer : Type 1 where
  pub Cache : Type 0
  pub list : Cache → List Object
  pub index_values : Cache → List String
  pub by_index : String → Cache → Result (List Object)
  pub delete : Object → Cache → Cache × Option Error
  pub add : Object → Cache → Cache × Option Error
  pub by_kind : String → Cache → Result (List Object)
  pub empty : Cache
  pub sorted : List String → List String
  pub match_string : String → String → Result Bool
  pub as_selector : String → Result (Dict String → Bool)
  -- `ByIndex` returns the objects with the value in the index, in any order.
  pub by_index-list :
      (ns : String) (st : Cache) {os : List Object}
      → by_index ns st ≡ ok os
      → (f : Object → Bool)
      → any f os ≡ any f (keep (λ o. contains (namespace_keys o) ns) (list st))
  -- `Delete` removes the entry with the object's key.
  pub delete-list :
      (o : Object) (st : Cache) {st' : Cache}
      → delete o st ≡ (st', none)
      → list st' ≡ keep (λ p. not (same_key p o)) (list st)
  -- `Add` puts the object in the place of the one with its key.
  pub add-list :
      (o : Object) (st : Cache) {st' : Cache}
      → add o st ≡ (st', none)
      → (f : Object → Bool)
      → any f (list st') ≡ (f o || any f (keep (λ p. not (same_key p o)) (list st)))
  pub by_kind-list :
      (kind : String) (st : Cache) {os : List Object}
      → by_kind kind st ≡ ok os
      → (f : Object → Bool) → any f os ≡ any f (keep (λ o. o.kind == kind) (list st))
  pub list-empty : list empty ≡ []
  pub contains-sorted : (xs : List String) (s : String) → contains (sorted xs) s ≡ contains xs s

module _ (ix : Indexer) where
  open ix use {Cache, list, index_values, by_index, delete, sorted, match_string, as_selector}

  -- A filter's `handle`: the cache after it, and its error.
  abbrev Handle : Type 0
  Handle = Cache → Cache × Option Error

  matched : Result Bool → Bool
  matched (ok b) = b
  matched (err e) = false

  pub is_match : Object → ResourceSpec → Bool
  unfolding matched
  is_match resource spec =
      if not (spec.kind == resource.kind)
      then false
      else if spec.is_regex
      then matched (match_string spec.name resource.name)
      else false

  -- The loop over the inclusion list, with the variable `exclude`.
  pub included_loop : Object → List ResourceSpec → Bool → Bool
  unfolding is_match
  included_loop resource [] exclude = exclude
  included_loop resource (spec ∷ specs) exclude =
      let rest = included_loop resource specs true in if is_match resource spec then false else rest

  pub is_resource_need_exclude : Object → List ResourceSpec → List ResourceSpec → Bool
  unfolding included_loop
  is_resource_need_exclude resource includes excludes =
      if any (is_match resource) excludes then true else included_loop resource includes false

  -- `if err != nil { return err }` before the rest.
  pub and_next : Handle → Cache × Option Error → Cache × Option Error
  and_next next (st, none) = next st
  and_next next (st, some e) = (st, some e)

  pub with_context : String → Cache × Option Error → Cache × Option Error
  with_context context (st, none) = (st, none)
  with_context context (st, some e) = (st, some (wrap e context))

  -- Deletes the objects in turn, up to the first error.
  pub delete_all : String → List Object → Handle
  unfolding and_next with_context
  delete_all context [] st = (st, none)
  delete_all context (o ∷ os) st =
      and_next (delete_all context os) (with_context context (delete o st))

  -- The loop over the available namespaces: `Insert()` has no argument.
  pub unlisted : List String → List String → List String → List String
  unlisted includes [] excluded = excluded
  unlisted includes (ns ∷ nss) excluded =
      unlisted includes nss (if contains includes ns then excluded else excluded ++ [])

  pub excluded_namespaces : RestoreSpec → Cache → List String
  unfolding unlisted
  excluded_namespaces spec st =
      let excluded =
        if is_empty spec.include_namespaces
        then []
        else unlisted spec.include_namespaces (index_values st) [] in
      sorted (excluded ++ spec.exclude_namespaces)

  pub joined : Result (List Object) → Result (List Object) → Result (List Object)
  joined (err e) rest = err (wrap e "failed to retrieve resources from cache")
  joined (ok os) (err e) = err e
  joined (ok os) (ok rest) = ok (os ++ rest)

  pub gather : List String → Cache → Result (List Object)
  unfolding joined
  gather [] st = ok []
  gather (ns ∷ nss) st = joined (by_index ns st) (gather nss st)

  pub filter_gathered : Handle → Cache → Result (List Object) → Cache × Option Error
  unfolding delete_all and_next
  filter_gathered next st (err e) = (st, some e)
  filter_gathered next st (ok os) = and_next next (delete_all "namespace resource exclusion" os st)

  pub namespace_filter : RestoreSpec → Handle → Handle
  unfolding excluded_namespaces gather filter_gathered
  namespace_filter spec next st = filter_gathered next st (gather (excluded_namespaces spec st) st)

  pub is_excluded : RestoreSpec → Object → Bool
  unfolding is_unstructured is_resource_need_exclude
  is_excluded spec o =
      is_unstructured o.form
      && is_resource_need_exclude o spec.include_resources spec.exclude_resources

  pub resource_filter : RestoreSpec → Handle → Handle
  unfolding is_excluded delete_all and_next
  resource_filter spec next st =
      and_next next (delete_all "resource exclusion" (keep (is_excluded spec) (list st)) st)

  -- The loop over a selector's objects. It makes the selector anew for each.
  pub select_loop : Result (Dict String → Bool) → List Object → Handle
  unfolding is_pointer and_next
  select_loop selector [] st = (st, none)
  select_loop (err e) (o ∷ os) st = (
    st,
    some (if is_pointer o.form then e else message "restore index cache with invalid object type"),
  )
  select_loop (ok matches) (o ∷ os) st =
      if not (is_pointer o.form)
      then (st, some (message "restore index cache with invalid object type"))
      else if matches o.labels
      then select_loop (ok matches) os st
      else and_next (select_loop (ok matches) os) (delete o st)

  pub select_by : Option String → Handle
  unfolding select_loop
  select_by none st = (st, none)
  select_by (some selector) st = select_loop (as_selector selector) (list st) st

  pub label_selector_filter : RestoreSpec → Handle
  unfolding select_by
  label_selector_filter spec = select_by spec.label_selector

  pub construct_filter_handler : RestoreSpec → Handle
  unfolding namespace_filter resource_filter label_selector_filter
  construct_filter_handler spec =
      namespace_filter spec (resource_filter spec (label_selector_filter spec))
