-- ===== src/Restore/Filters/Stages.antt =====
-- What each filter leaves in the cache.
use kahu.Restore.Objects.{RestoreSpec}
use kahu.Restore.Filters.{
  Object, Indexer, same_key, namespace_keys, with_context, delete_all, joined, gather, and_next,
  filter_gathered, unlisted, excluded_namespaces, namespace_filter, is_excluded, resource_filter,
}
use kahu.Restore.Filters.Kept.{clean, keep-keep, keep_same, keep_all, any_none, any_or}
use kahu.Base.{
  String, ◌≡◌, refl, sym, ap, ◌∙◌, inl, inr, Bool, true, false, not, ◌&&◌, ◌||◌, Option, none, some,
  List, [], ◌∷◌, ◌++◌, arith, eq_iff, ◌==◌, Bool-cases, is_empty, keep, any, any-append, any-keep,
  contains, Error, Result, ok, err,
}

abbrev taken : Result (List Object) → List Object
taken (ok os) = os
taken (err e) = []

module _ (ix : Indexer) where
  open ix use {Cache, list}

  pub and_next_ok :
      (next : Cache → Cache × Option Error) (r : Cache × Option Error) {st' : Cache}
      → and_next ix next r ≡ (st', none)
      → (st : Cache) × (r ≡ (st, none)) × (next st ≡ (st', none))
  unfolding and_next
  and_next_ok next (st, none) e = (st, refl, e)
  and_next_ok next (st, some e') e = absurd (cc)

  with_context_ok :
      (context : String) (r : Cache × Option Error) {st' : Cache}
      → with_context ix context r ≡ (st', none)
      → r ≡ (st', none)
  unfolding with_context
  with_context_ok context (st, none) e = e
  with_context_ok context (st, some e') e = absurd (cc)

  delete_all-list :
      (context : String) (os : List Object) (st : Cache) {st' : Cache}
      → delete_all ix context os st ≡ (st', none)
      → list st' ≡ keep (λ p. not (any (same_key p) os)) (list st)
  unfolding delete_all any
  delete_all-list context [] st e = ap (λ r. list r.0) (sym e) ∙ sym (keep_all (list st))
  delete_all-list context (o ∷ os) st e =
      let (st1, first, later) = and_next_ok (delete_all ix context os) _ e in
      let step = ix.delete-list o st (with_context_ok context (ix.delete o st) first) in
      delete_all-list context os st1 later
      ∙ ap (keep (λ p. not (any (same_key p) os))) step
      ∙ keep-keep _ _ (list st)
      ∙ keep_same _ _ (list st) (λ x. ground arith)

  -- The namespace filter.
  pub in_namespaces : List String → Object → Bool
  in_namespaces nss o = any (λ ns. contains (namespace_keys o) ns) nss

  joined_ok :
      (a b : Result (List Object)) {os : List Object}
      → joined ix a b ≡ ok os
      → (xs : List Object) × (ys : List Object) × (a ≡ ok xs) × (b ≡ ok ys) × (os ≡ xs ++ ys)
  unfolding joined
  joined_ok (err e) b h = absurd (cc)
  joined_ok (ok xs) (err e) h = absurd (cc)
  joined_ok (ok xs) (ok ys) h = (xs, ys, refl, refl, cc)

  any-keys :
      (nss : List String) (o : Object)
      → in_namespaces nss o ≡ (not (o.namespace == "") && contains nss o.namespace)
  unfolding in_namespaces any contains namespace_keys
  any-keys [] o = ground arith
  any-keys (ns ∷ nss) o =
      ground
        (arith, any-keys nss o, eq_iff o.namespace "", eq_iff o.namespace ns, eq_iff ns o.namespace)

  gather-any :
      (nss : List String) (st : Cache) {os : List Object} (p : Object)
      → gather ix nss st ≡ ok os
      → any (same_key p) os ≡ any (λ x. in_namespaces nss x && same_key p x) (list st)
  unfolding gather in_namespaces any
  gather-any [] st {os} p e =
      ap (λ r. any (same_key p) (taken r)) (sym e) ∙ sym (any_none (same_key p) (list st))
  gather-any (ns ∷ nss) st p e =
      let (xs, ys, first, later, all_of) = joined_ok _ _ e in
      ap (any (same_key p)) all_of
      ∙ any-append (same_key p) xs ys
      ∙ ap (λ b. b || any (same_key p) ys)
          (ix.by_index-list ns st first (same_key p) ∙ any-keep (same_key p) _ (list st))
      ∙ ap (λ b. any (λ x. contains (namespace_keys x) ns && same_key p x) (list st) || b)
          (gather-any nss st p later)
      ∙ sym (any_or _ (in_namespaces nss) (same_key p) (list st))

  unlisted_none : (includes nss : List String) → unlisted ix includes nss [] ≡ []
  unfolding unlisted
  unlisted_none includes [] = refl
  unlisted_none includes (ns ∷ nss) = elim (Bool-cases (contains includes ns)) [
    | inl t ↦ rw t (unlisted_none includes nss)
    | inr f ↦ rw f (unlisted_none includes nss)
  ]

  -- The namespaces whose objects are dropped are those of the exclusion list: the inclusion list
  -- changes nothing.
  pub excluded_namespaces_lem :
      (spec : RestoreSpec) (st : Cache) (s : String)
      → contains (excluded_namespaces ix spec st) s ≡ contains spec.exclude_namespaces s
  unfolding excluded_namespaces
  excluded_namespaces_lem spec st s = elim (Bool-cases (is_empty spec.include_namespaces)) [
    | inl t ↦ rw (t, excluded_namespaces) (ix.contains-sorted _ s)
    | inr f ↦
        rw (f, excluded_namespaces, unlisted_none spec.include_namespaces (ix.index_values st))
          (ix.contains-sorted _ s)
  ]

  pub in_excluded :
      (spec : RestoreSpec) (st : Cache) (o : Object)
      → in_namespaces (excluded_namespaces ix spec st) o ≡ in_namespaces spec.exclude_namespaces o
  in_excluded spec st o =
      any-keys _ o
      ∙ ap (λ b. not (o.namespace == "") && b) (excluded_namespaces_lem spec st o.namespace)
      ∙ sym (any-keys _ o)

  -- After a filter: the next one ran on a cache with no bad object, which has only objects that
  -- were there.
  pub record IsFiltered (bad : Object → Bool) (before after : Cache) : Type 0 where
    pub is_clean : any bad (list after) ≡ false
    pub kept : Object → Bool
    pub is_part : list after ≡ keep kept (list before)

  filtered :
      (bad : Object → Bool) (context : String) (os : List Object) (st : Cache) {st' : Cache}
      → ((p : Object)
          → bad p ≡ true
          → any (λ x. bad x && same_key p x) (list st) ≡ true
          → any (same_key p) os ≡ true)
      → delete_all ix context os st ≡ (st', none)
      → IsFiltered bad st st'
  filtered bad context os st covers e = record {
    is_clean =
        ap (any bad) (delete_all-list context os st e)
        ∙ clean bad os (list st) covers (list st) (λ f h. h);
    kept = λ p. not (any (same_key p) os);
    is_part = delete_all-list context os st e;
  }

  gathered_ok :
      (spec : RestoreSpec) (next : Cache → Cache × Option Error) (st : Cache)
      (r : Result (List Object)) {st' : Cache}
      → gather ix (excluded_namespaces ix spec st) st ≡ r
      → filter_gathered ix next st r ≡ (st', none)
      → (st1 : Cache) × (next st1 ≡ (st', none))
        × IsFiltered (in_namespaces (excluded_namespaces ix spec st)) st st1
  unfolding filter_gathered
  gathered_ok spec next st (err e') g e = absurd (cc)
  gathered_ok spec next st (ok os) g e =
      let (st1, deleted, later) = and_next_ok next _ e in
      (
        st1,
        later,
        filtered (in_namespaces (excluded_namespaces ix spec st)) _ os st
            (λ p b h. gather-any _ st p g ∙ h) deleted,
      )

  pub namespace_filter_ok :
      (spec : RestoreSpec) (next : Cache → Cache × Option Error) (st : Cache) {st' : Cache}
      → namespace_filter ix spec next st ≡ (st', none)
      → (st1 : Cache) × (next st1 ≡ (st', none))
        × IsFiltered (in_namespaces (excluded_namespaces ix spec st)) st st1
  unfolding namespace_filter
  namespace_filter_ok spec next st e =
      gathered_ok spec next st (gather ix (excluded_namespaces ix spec st) st) refl e

  pub resource_filter_ok :
      (spec : RestoreSpec) (next : Cache → Cache × Option Error) (st : Cache) {st' : Cache}
      → resource_filter ix spec next st ≡ (st', none)
      → (st1 : Cache) × (next st1 ≡ (st', none)) × IsFiltered (is_excluded ix spec) st st1
  unfolding resource_filter
  resource_filter_ok spec next st e =
      let (st1, deleted, later) = and_next_ok next _ e in
      (
        st1,
        later,
        filtered (is_excluded ix spec) _ _ st
            (λ p b h. any-keep (same_key p) (is_excluded ix spec) (list st) ∙ h) deleted,
      )
