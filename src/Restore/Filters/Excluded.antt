-- ===== src/Restore/Filters/Excluded.antt =====
-- Which objects the resource filter drops.
use kahu.Api.{ResourceSpec}
use kahu.Restore.Filters.{Object, Indexer, is_match, included_loop, is_resource_need_exclude}
use kahu.Base.{
  ◌≡◌, refl, ◌∙◌, Bool, true, false, not, ◌&&◌, ◌||◌, List, [], ◌∷◌, arith, is_empty, any,
}

module _ (ix : Indexer) (o : Object) where
  included_loop_lem :
      (specs : List ResourceSpec) (exclude : Bool)
      → included_loop ix o specs exclude
        ≡ (not (any (is_match ix o) specs) && (exclude || not (is_empty specs)))
  unfolding included_loop any
  included_loop_lem [] exclude = ground arith
  included_loop_lem (spec ∷ specs) exclude = ground (arith, included_loop_lem specs true)

  -- An object is dropped exactly when one of the exclusion list's specs matches it, or the
  -- inclusion list is not empty and none of its specs matches.
  is_resource_need_exclude_lem :
      (includes excludes : List ResourceSpec)
      → is_resource_need_exclude ix o includes excludes ≡ (
          any (is_match ix o) excludes
          || (not (is_empty includes) && not (any (is_match ix o) includes)))
  unfolding is_resource_need_exclude
  is_resource_need_exclude_lem includes excludes = ground (arith, included_loop_lem includes false)

  unmatched :
      (specs : List ResourceSpec)
      → any (λ spec. spec.is_regex) specs ≡ false
      → any (is_match ix o) specs ≡ false
  unfolding any is_match
  unmatched [] h = refl
  unmatched (spec ∷ specs) h = ground (arith, unmatched specs)

  -- A spec that is no regular expression matches nothing: an inclusion list of plain names drops
  -- every object, and an exclusion list of plain names drops none.
  pub is_resource_need_exclude_plain :
      (includes excludes : List ResourceSpec)
      → any (λ spec. spec.is_regex) includes ≡ false
      → any (λ spec. spec.is_regex) excludes ≡ false
      → is_resource_need_exclude ix o includes excludes ≡ not (is_empty includes)
  is_resource_need_exclude_plain includes excludes h k =
      is_resource_need_exclude_lem includes excludes
      ∙ ground (arith, unmatched includes h, unmatched excludes k)
