-- ===== src/Restore/Filters/Sound.antt =====
-- What the chain of filters leaves in the cache.
use kahu.Restore.Objects.{RestoreSpec}
use kahu.Restore.Filters.{
  Object, Indexer, excluded_namespaces, is_excluded, resource_filter, label_selector_filter,
  construct_filter_handler,
}
use kahu.Restore.Filters.Kept.{keep_clean, any_both, any_same}
use kahu.Restore.Filters.Stages.{
  in_namespaces, in_excluded, namespace_filter_ok, resource_filter_ok,
}
use kahu.Restore.Filters.Selected.{is_unselected, select_by_ok}
use kahu.Base.{◌≡◌, sym, ap, ◌∙◌, Bool, false, ◌||◌, none, keep, any}

module _ (ix : Indexer) where
  open ix use {Cache, list}

  -- Whether one of the filters is to drop the object.
  pub is_rejected : RestoreSpec → Object → Bool
  is_rejected spec o =
      in_namespaces ix spec.exclude_namespaces o
      || is_excluded ix spec o
      || is_unselected ix spec.label_selector o

  -- On a cache with the laws of `Indexer`, filters that report no error leave no object that they are to
  -- drop: none in an excluded namespace, none that the resource lists drop, and none that the label
  -- selector does not match.
  pub construct_filter_handler-clean :
      (spec : RestoreSpec) (st : Cache) {st' : Cache}
      → construct_filter_handler ix spec st ≡ (st', none)
      → any (is_rejected spec) (list st') ≡ false
  unfolding construct_filter_handler label_selector_filter is_rejected
  construct_filter_handler-clean spec st e =
      let (st1, after_namespaces, f) =
        namespace_filter_ok ix spec (resource_filter ix spec (label_selector_filter ix spec)) st
          e in
      let (st2, after_resources, g) =
        resource_filter_ok ix spec (label_selector_filter ix spec) st1 after_namespaces in
      let h = select_by_ok ix spec.label_selector st2 after_resources in
      let namespaces =
        ap (any (in_namespaces ix (excluded_namespaces ix spec st)))
          (h.is_part ∙ ap (keep h.kept) g.is_part)
        ∙ keep_clean _ h.kept _ (keep_clean _ g.kept _ f.is_clean) in
      let resources = ap (any (is_excluded ix spec)) h.is_part ∙ keep_clean _ h.kept _ g.is_clean in
      any_both _ _ _
        (any_both _ _ _ (any_same _ _ (λ o. sym (in_excluded ix spec st o)) _ ∙ namespaces)
          resources)
        h.is_clean
