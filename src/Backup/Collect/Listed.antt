-- ===== src/Backup/Collect/Listed.antt =====
-- The objects that are listed in a namespace.
use mathlib.Core.Path.{subst}
use kahu.Unstructured.{Object}
use kahu.Backup.Cluster.{Lookup, found, not_found, lookup_error}
use kahu.Backup.Objects.{ObjectCache, ApiResource, Api, typed}
use kahu.Backup.Collect.{joined, with_listed, collect_namespace_resources}
use kahu.Base.{
  String, ◌≡◌, refl, inl, inr, List, [], ◌∷◌, ◌++◌, map, Result, ok, err, Member, here, there,
  Member-append, Member-map,
}

module _ (oc : ObjectCache) {World : Type 0} (api : Api World) (w : World) where
  open api use {list_objects}

  -- An object that was listed in a namespace for one of the resources.
  abbrev pub IsListed : List ApiResource → String → String → Object → Type 0
  IsListed rs namespace selector o =
      (r : ApiResource) × Member r rs
      × (listed : List Object) × (list_objects r namespace selector w ≡ found listed)
      × (o' : Object) × Member o' listed
      × (o ≡ typed r o')

  IsListed-there :
      {r : ApiResource} {rs : List ApiResource} (namespace selector : String) (o : Object)
      → IsListed rs namespace selector o
      → IsListed (r ∷ rs) namespace selector o
  IsListed-there namespace selector o (r, m, h, e, o', m', t) = (r, there m, h, e, o', m', t)

  joined-IsListed :
      (r : ApiResource) (rs : List ApiResource) (namespace selector : String) (listed : List Object)
      (rest : Result (List Object)) (os : List Object)
      → list_objects r namespace selector w ≡ found listed
      → ((os' : List Object)
          → rest ≡ ok os'
          → (o : Object) → Member o os'
          → IsListed rs namespace selector o)
      → joined (map (typed r) listed) rest ≡ ok os
      → (o : Object) → Member o os
      → IsListed (r ∷ rs) namespace selector o
  unfolding joined
  joined-IsListed r rs namespace selector listed (err x) os e h j o m = cc
  joined-IsListed r rs namespace selector listed (ok rest) os e h j o m =
      let same : os ≡ map (typed r) listed ++ rest = cc in
      elim (Member-append (map (typed r) listed) (subst (λ l. Member o l) same m)) [
        | inl new ↦
            let (o', m', t) = Member-map (typed r) listed new in (r, here, listed, e, o', m', t)
        | inr old ↦ IsListed-there namespace selector o (h rest refl o old)
      ]

  with_listed-IsListed :
      (r : ApiResource) (rs : List ApiResource) (namespace selector : String)
      (l : Lookup (List Object)) (rest : Result (List Object)) (os : List Object)
      → list_objects r namespace selector w ≡ l
      → ((os' : List Object)
          → rest ≡ ok os'
          → (o : Object) → Member o os'
          → IsListed rs namespace selector o)
      → with_listed oc api w r l rest ≡ ok os
      → (o : Object) → Member o os
      → IsListed (r ∷ rs) namespace selector o
  unfolding with_listed
  with_listed-IsListed r rs namespace selector (not_found x) rest os e h j o m =
      IsListed-there namespace selector o (h os j o m)
  with_listed-IsListed r rs namespace selector (lookup_error x) rest os e h j o m = cc
  with_listed-IsListed r rs namespace selector (found listed) rest os e h j o m =
      joined-IsListed r rs namespace selector listed rest os e h j o m

  pub collected-IsListed :
      (rs : List ApiResource) (namespace selector : String) (os : List Object)
      → collect_namespace_resources oc api w namespace rs selector ≡ ok os
      → (o : Object) → Member o os
      → IsListed rs namespace selector o
  unfolding collect_namespace_resources
  collected-IsListed [] namespace selector os e o m =
      let none_ : os ≡ [] = cc in elim (subst (λ l. Member o l) none_ m) [ ]
  collected-IsListed (r ∷ rs) namespace selector os e o m =
      with_listed-IsListed r rs namespace selector _ _ os refl
        (collected-IsListed rs namespace selector) e o m
