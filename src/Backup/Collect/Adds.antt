-- ===== src/Backup/Collect/Adds.antt =====
-- Steps that add objects to the cache, and what holds of all its objects.
use kahu.Unstructured.{Object}
use kahu.Backup.Objects.{ObjectCache, Api}
use kahu.Backup.Collect.{and_next, with_context, add_objects}
use kahu.Base.{
  String, ◌≡◌, refl, inl, inr, Option, none, some, List, [], ◌∷◌, Error, Member, here, there,
}

module _ (oc : ObjectCache) {World : Type 0} (api : Api World) (w : World) where
  open oc use {Cache, list, add, add-list}

  -- A step that ends without an error keeps what holds of all objects of the cache.
  abbrev pub All : (Object → Type 0) → Cache → Type 0
  All P st = (o : Object) → Member o (list st) → P o

  abbrev pub Adds : (Object → Type 0) → Cache × Option Error → Type 0
  Adds P (st, none) = All P st
  Adds P (st, some e) = Unit

  pub and_next-Adds :
      (P : Object → Type 0) (next : Cache → Cache × Option Error) (r : Cache × Option Error)
      → Adds P r
      → ((st : Cache) → All P st → Adds P (next st))
      → Adds P (and_next oc api w next r)
  unfolding and_next
  and_next-Adds P next (st, none) h f = f st h
  and_next-Adds P next (st, some e) h f = tt

  pub add-Adds :
      (P : Object → Type 0) (o : Object) (st : Cache) (r : Cache × Option Error)
      → add o st ≡ r
      → P o
      → All P st
      → Adds P r
  add-Adds P o st (st', none) e p h =
      λ o' m. elim ((add-list o st e o').0 m) [ inl same ↦ rw same p | inr old ↦ h o' old.0 ]
  add-Adds P o st (st', some x) e p h = tt

  with_context-Adds :
      (P : Object → Type 0) (context : String) (r : Cache × Option Error)
      → Adds P r
      → Adds P (with_context oc api w context r)
  unfolding with_context
  with_context-Adds P context (st, none) h = h
  with_context-Adds P context (st, some e) h = tt

  pub add_objects-Adds :
      (P : Object → Type 0) (os : List Object) (st : Cache)
      → ((o : Object) → Member o os → P o)
      → All P st
      → Adds P (add_objects oc api w os st)
  unfolding add_objects
  add_objects-Adds P [] st p h = h
  add_objects-Adds P (o ∷ os) st p h =
      and_next-Adds P (add_objects oc api w os) _
        (with_context-Adds P _ _ (add-Adds P o st (add o st) refl (p o here) h))
        (λ st' h'. add_objects-Adds P os st' (λ o' m. p o' (there m)) h')
