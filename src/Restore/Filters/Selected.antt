-- ===== src/Restore/Filters/Selected.antt =====
-- What the label selector filter leaves in the cache.
use kahu.Restore.Filters.{Object, Indexer, same_key, is_pointer, select_loop, select_by}
use kahu.Restore.Filters.Kept.{clean, keep-keep, keep_same, keep_all, any-false, if_cases}
use kahu.Restore.Filters.Stages.{and_next_ok, IsFiltered}
use kahu.Base.{
  String, ◌≡◌, refl, sym, ap, ◌∙◌, inl, inr, Bool, true, false, not, ◌&&◌, Option, none, some, List,
  [], ◌∷◌, arith, keep, any, any-keep, Error, Result, ok, err, Dict,
}

abbrev unmatched : (Dict String → Bool) → Object → Bool
unmatched matches o = not (matches o.labels)

module _ (ix : Indexer) where
  open ix use {Cache, list}

  is_unselected_by : Result (Dict String → Bool) → Object → Bool
  is_unselected_by (ok matches) o = not (matches o.labels)
  is_unselected_by (err e) o = true

  pub is_unselected : Option String → Object → Bool
  unfolding is_unselected_by
  is_unselected none o = false
  is_unselected (some selector) o = is_unselected_by (ix.as_selector selector) o

  -- The loop deletes what the selector does not match.
  select_loop-list :
      (matches : Dict String → Bool) (os : List Object) (st : Cache) {st' : Cache}
      → select_loop ix (ok matches) os st ≡ (st', none)
      → list st'
        ≡ keep (λ p. not (any (same_key p) (keep (λ o. not (matches o.labels)) os))) (list st)
  unfolding select_loop any keep
  select_loop-list matches [] st e = ap (λ r. list r.0) (sym e) ∙ sym (keep_all (list st))
  select_loop-list matches (o ∷ os) st e = elim (if_cases (not (is_pointer o.form)) _ _ e) [
    | inl (_, stopped) ↦ absurd (cc)
    | inr (_, rest) ↦ elim (if_cases (matches o.labels) _ _ rest) [
      | inl (m, later) ↦ rw m (select_loop-list matches os st later)
      | inr (m, go) ↦
          let (st1, deleted, later) = and_next_ok ix (select_loop ix (ok matches) os) _ go in
          select_loop-list matches os st1 later
          ∙ ap (keep (λ p. not (any (same_key p) (keep (unmatched matches) os))))
              (ix.delete-list o st deleted)
          ∙ keep-keep _ _ (list st)
          ∙ keep_same
              (λ x. not (same_key x o) && not (any (same_key x) (keep (unmatched matches) os)))
              (λ p. not (any (same_key p) (keep (unmatched matches) (o ∷ os)))) (list st)
              (λ x. ground (arith, m))
    ]
  ]

  select_loop_err :
      (e' : Error) (os : List Object) (st : Cache) {st' : Cache}
      → select_loop ix (err e') os st ≡ (st', none)
      → (os ≡ []) × (st ≡ st')
  unfolding select_loop
  select_loop_err e' [] st e = (refl, ap (λ r. r.0) e)
  select_loop_err e' (o ∷ os) st e = absurd (cc)

  unselected_ok :
      (r : Result (Dict String → Bool)) (st : Cache) {st' : Cache}
      → select_loop ix r (list st) st ≡ (st', none)
      → IsFiltered ix (is_unselected_by r) st st'
  unfolding is_unselected_by any
  unselected_ok (err e') st e =
      let (empty, same) = select_loop_err e' (list st) st e in
      record {
        is_clean = ap (any (is_unselected_by (err e'))) (ap list (sym same) ∙ empty);
        kept = λ p. true;
        is_part = ap list (sym same) ∙ sym (keep_all (list st));
      }
  unselected_ok (ok matches) st e = record {
    is_clean =
        ap (any (λ o. not (matches o.labels))) (select_loop-list matches (list st) st e)
        ∙ clean (λ o. not (matches o.labels)) _ (list st)
            (λ p b h. any-keep (same_key p) (λ o. not (matches o.labels)) (list st) ∙ h) (list st)
            (λ f h. h);
    kept = λ p. not (any (same_key p) (keep (λ o. not (matches o.labels)) (list st)));
    is_part = select_loop-list matches (list st) st e;
  }

  pub select_by_ok :
      (selector : Option String) (st : Cache) {st' : Cache}
      → select_by ix selector st ≡ (st', none)
      → IsFiltered ix (is_unselected selector) st st'
  unfolding select_by is_unselected
  select_by_ok none st e = record {
    is_clean = any-false (list _);
    kept = λ p. true;
    is_part = ap (λ r. list r.0) (sym e) ∙ sym (keep_all (list st));
  }
  select_by_ok (some selector) st e = unselected_ok (ix.as_selector selector) st e
