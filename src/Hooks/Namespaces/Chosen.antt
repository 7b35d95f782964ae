-- ===== src/Hooks/Namespaces/Chosen.antt =====
-- Which namespaces a hook gets.
use kahu.Hooks.Namespaces.{
  delete_item, delete_items, filter_includes_excludes, filter_hook_namespaces, check_include,
}
use kahu.Base.{
  Bool-cases, inl, inr, String, ◌≡◌, refl, ◌∙◌, ap, Bool, not, ◌&&◌, List, [], ◌∷◌, ◌++◌, ◌==◌,
  eq_iff, arith, if◌then◌else◌, is_empty, keep, contains, contains-append,
}

contains-keep :
    (p : String → Bool) (xs : List String) (s : String)
    → contains (keep p xs) s ≡ (contains xs s && p s)
unfolding contains keep
contains-keep p [] s = refl
contains-keep p (x ∷ xs) s = ground (arith, contains-keep p xs s, eq_iff x s, ap p)

contains-delete_items :
    (set items : List String) (s : String)
    → contains (delete_items set items) s ≡ (contains set s && not (contains items s))
unfolding delete_items delete_item contains
contains-delete_items set [] s = ground arith
contains-delete_items set (item ∷ items) s =
    let ih = contains-delete_items (keep (λ x. not (x == item)) set) items s in
    let kept = contains-keep (λ x. not (x == item)) set s in
    ground (arith, ih, kept, eq_iff s item, eq_iff item s)

abbrev filtered_of : List String → List String → List String → List String
filtered_of all_namespaces includes excludes = delete_items includes (
    keep (λ item. not (contains includes item)) all_namespaces
    ++ (keep (λ item. not (contains all_namespaces item)) includes ++ excludes))

abbrev choice : Bool → List String → List String → List String → List String × List String
choice b all_namespaces includes excludes =
    if not b
    then (filtered_of all_namespaces includes excludes, all_namespaces)
    else (delete_items all_namespaces excludes, delete_items all_namespaces excludes)

module _ (all_namespaces includes excludes : List String) (s : String) where
  -- A hook gets a namespace exactly when it is one of all and `checkInclude` lets it pass.
  pub filter_hook_namespaces-check_include :
      contains (filter_hook_namespaces all_namespaces includes excludes).0 s
      ≡ (contains all_namespaces s && check_include includes excludes s)
  unfolding filter_hook_namespaces filter_includes_excludes check_include
  filter_hook_namespaces-check_include =
      let unincluded = keep (λ item. not (contains includes item)) all_namespaces in
      let unavailable = keep (λ item. not (contains all_namespaces item)) includes in
      elim (Bool-cases (is_empty includes)) [
        | inl t ↦
            ap (λ b. contains (choice b all_namespaces includes excludes).0 s) t
            ∙ ground (arith, t, contains-delete_items all_namespaces excludes s)
        | inr f ↦
            ap (λ b. contains (choice b all_namespaces includes excludes).0 s) f
            ∙ ground (
              arith,
              f,
              contains-delete_items includes (unincluded ++ (unavailable ++ excludes)) s,
              contains-append unincluded (unavailable ++ excludes) s,
              contains-append unavailable excludes s,
              contains-keep (λ item. not (contains includes item)) all_namespaces s,
              contains-keep (λ item. not (contains all_namespaces item)) includes s,
            )
      ]

  -- Without includes the hook's exclusions are taken out of the caller's set: a namespace stays in it
  -- exactly when it was there and is not excluded. With includes the set stays as it is.
  pub filter_hook_namespaces_shares :
      contains (filter_hook_namespaces all_namespaces includes excludes).1 s
      ≡ (contains all_namespaces s && not (is_empty includes && contains excludes s))
  unfolding filter_hook_namespaces filter_includes_excludes
  filter_hook_namespaces_shares = elim (Bool-cases (is_empty includes)) [
    | inl t ↦
        ap (λ b. contains (choice b all_namespaces includes excludes).1 s) t
        ∙ ground (arith, t, contains-delete_items all_namespaces excludes s)
    | inr f ↦
        ap (λ b. contains (choice b all_namespaces includes excludes).1 s) f ∙ ground (arith, f)
  ]
