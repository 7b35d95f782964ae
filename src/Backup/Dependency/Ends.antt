-- ===== src/Backup/Dependency/Ends.antt =====
-- How deep the resolution of a backup's dependencies goes.
use kahu.Unstructured.{Object, pointer, is_unstructured}
use kahu.Backup.Objects.{ObjectCache, Identifier, Api}
use kahu.Backup.Dependency.Present.{
  identifier_of, IsKnown, AllKnown, add-AllKnown, present, present-of_Member, present-add,
  present-already_exist, pointer-unstructured,
}
use kahu.Backup.Dependency.{
  Dependencies, depends, unresolved, nil_class, dependencies, fetch, answers, already_exist, Run,
  added, fetched, populate_dependency, and_rest, populate_all, resolve_with, resolve, resolve_list,
  resolve_all,
}
use kahu.Base.{
  ℕ, zero, suc, ◌≤◌, ◌<◌, String, ◌≡◌, refl, ◌≢◌, inl, inr, true, false, not, Option, none, some,
  List, [], ◌∷◌, arith, Bool-cases, length, Error, ok, Member, here, there, count, Result-cases,
  count-drop, count-le-length, Fault, raised, nil_pointer, stack_overflow,
}

module _ (oc : ObjectCache) {World : Type 0} (api : Api World) (w : World)
    (identity : String → Identifier) (pool : List Identifier)
    (indexed : (kind : String) (st : oc.Cache) → (os : List Object) × (oc.by_kind kind st ≡ ok os))
    (bounded : (o : Object) (ds : List Identifier) (d : Identifier)
      → dependencies api w o ≡ depends ds
      → Member d ds
      → Member d pool)
    (fetches : (d : Identifier) (o : Object)
      → Member d pool
      → fetch api w d ≡ ok o
      → (answers d o ≡ true) × (o.form ≡ pointer) × (identifier_of o ≡ identity o.uid)) where
  open oc use {Cache, list, add, by_kind, add-list, add-failed}

  -- How many identifiers of the pool have no object in the cache.
  pub missing : Cache → ℕ
  missing st = count (λ d. not (present oc st d)) pool

  -- A run that stays on the stack, and misses no more than before.
  record Stays (st : Cache) (r : Run oc api w) : Type 0 where
    pub fits : r.1 ≢ some stack_overflow
    pub known : AllKnown oc identity r.0
    pub fewer : missing r.0 ≤ missing st

  Stays-here :
      (st : Cache) (fault : Option Fault)
      → AllKnown oc identity st
      → fault ≢ some stack_overflow
      → Stays st (st, fault)
  Stays-here st fault known f = record { fits = f; known = known; fewer = omega arith }

  -- A run from a cache with fewer missing objects.
  Stays-later :
      (st st' : Cache) (r : Run oc api w) → missing st' ≤ missing st → Stays st' r → Stays st r
  Stays-later st st' r le h = record {
    fits = h.fits;
    known = h.known;
    fewer = let f = h.fewer in omega arith;
  }

  and_rest-Stays :
      (rest : Cache → Run oc api w) (st : Cache) (r : Run oc api w)
      → Stays st r
      → ((st' : Cache) → AllKnown oc identity st' → missing st' ≤ missing st → Stays st' (rest st'))
      → Stays st (and_rest oc api w rest r)
  unfolding and_rest
  and_rest-Stays rest st (st', none) h f = Stays-later st st' _ h.fewer (f st' h.known h.fewer)
  and_rest-Stays rest st (st', some (raised e)) h f =
      Stays-later st st' _ h.fewer (f st' h.known h.fewer)
  and_rest-Stays rest st (st', some nil_pointer) h f = h
  and_rest-Stays rest st (st', some stack_overflow) h f = h

  -- The recursive calls, from a cache that misses fewer objects than the stack has room for.
  abbrev Fits : ℕ → (Object → Cache → Run oc api w) → Type 0
  Fits depth next =
      (o : Object) (st : Cache)
      → AllKnown oc identity st
      → missing st < depth
      → Stays st (next o st)

  missing-add :
      (d : Identifier) (o : Object) (st : Cache) {st' : Cache}
      → add o st ≡ (st', none)
      → IsKnown oc identity o
      → AllKnown oc identity st
      → answers d o ≡ true
      → Member d pool
      → present oc st d ≡ false
      → missing st' < missing st
  unfolding missing
  missing-add d o st {st'} e k known t m f =
      count-drop _ _ m
        (λ d' h. let keeps = present-add oc identity o st d' e k known in ground (arith, keeps))
        (rw
          (present-of_Member oc d st' ((add-list o st e o).1 (inl refl)) (pointer-unstructured k.0)
            t)
          refl)
        (rw f refl)

  added-Stays :
      (depth : ℕ) (next : Object → Cache → Run oc api w) (d : Identifier) (o : Object) (st : Cache)
      (r : Cache × Option Error)
      → add o st ≡ r
      → Fits depth next
      → missing st < suc depth
      → Member d pool
      → fetch api w d ≡ ok o
      → AllKnown oc identity st
      → present oc st d ≡ false
      → Stays st (added oc api w (next o) r)
  unfolding added
  added-Stays depth next d o st (st', some x) e h lt m f known no_ =
      rw (add-failed o st e) (Stays-here st _ known (λ c. cc))
  added-Stays depth next d o st (st', none) e h lt m f known no_ =
      let (t, p, i) = fetches d o m f in
      let k : IsKnown oc identity o = (p, i) in
      let less = missing-add d o st e k known t m no_ in
      Stays-later st st' _ (omega arith)
        (h o st' (add-AllKnown oc identity o st e k known) (omega arith))

  populate-Stays :
      (depth : ℕ) (next : Object → Cache → Run oc api w) (d : Identifier) (st : Cache)
      → Fits depth next
      → missing st < suc depth
      → Member d pool
      → AllKnown oc identity st
      → present oc st d ≡ false
      → Stays st (populate_dependency oc api w next d st)
  unfolding populate_dependency fetched
  populate-Stays depth next d st h lt m known no_ = elim (Result-cases (fetch api w d)) [
    | inl (o, e) ↦ rw e (added-Stays depth next d o st (add o st) refl h lt m e known no_)
    | inr (x, e) ↦ rw e (Stays-here st _ known (λ c. cc))
  ]

  exists-of_absent :
      (d : Identifier) (st : Cache)
      → AllKnown oc identity st
      → already_exist oc api w d st ≡ false
      → present oc st d ≡ false
  exists-of_absent d st known no_ = elim (Bool-cases (present oc st d)) [
    | inl t ↦
        let e =
          present-already_exist oc api w d st (indexed d.kind st).1 (λ o m. (known o m).0) t in
        cc
    | inr absent ↦ absent
  ]

  populate_all-Stays :
      (depth : ℕ) (next : Object → Cache → Run oc api w) (ds : List Identifier) (st : Cache)
      → Fits depth next
      → missing st < suc depth
      → ((d : Identifier) → Member d ds → Member d pool)
      → AllKnown oc identity st
      → Stays st (populate_all oc api w next ds st)
  unfolding populate_all
  populate_all-Stays depth next [] st h lt f known = Stays-here st none known (λ c. cc)
  populate_all-Stays depth next (d ∷ ds) st h lt f known =
      elim (Bool-cases (already_exist oc api w d st)) [
        | inl t ↦ rw t (populate_all-Stays depth next ds st h lt (λ d' m. f d' (there m)) known)
        | inr no_ ↦ rw no_ (
            and_rest-Stays (populate_all oc api w next ds) st _
              (populate-Stays depth next d st h lt (f d here) known
                (exists-of_absent d st known no_))
              (λ st' known' le.
                populate_all-Stays depth next ds st' h (omega arith) (λ d' m. f d' (there m))
                  known'))
      ]

  with-Stays :
      (depth : ℕ) (next : Object → Cache → Run oc api w) (o : Object) (st : Cache)
      (r : Dependencies)
      → dependencies api w o ≡ r
      → Fits depth next
      → missing st < suc depth
      → AllKnown oc identity st
      → Stays st (resolve_with oc api w next r st)
  unfolding resolve_with
  with-Stays depth next o st (depends ds) e h lt known =
      populate_all-Stays depth next ds st h lt (λ d m. bounded o ds d e m) known
  with-Stays depth next o st (unresolved x) e h lt known = Stays-here st none known (λ c. cc)
  with-Stays depth next o st nil_class e h lt known = Stays-here st _ known (λ c. cc)

  resolve-Fits : (depth : ℕ) → Fits depth (resolve oc api w depth)
  unfolding resolve
  resolve-Fits zero o st known lt = absurd (omega arith)
  resolve-Fits (suc depth) o st known lt =
      with-Stays depth (resolve oc api w depth) o st (dependencies api w o) refl
        (resolve-Fits depth) lt known

  resolve_list-Stays :
      (depth : ℕ) (os : List Object) (st : Cache)
      → AllKnown oc identity st
      → missing st < depth
      → Stays st (resolve_list oc api w depth os st)
  unfolding resolve_list
  resolve_list-Stays depth [] st known lt = Stays-here st none known (λ c. cc)
  resolve_list-Stays depth (o ∷ os) st known lt = elim (Bool-cases (is_unstructured o.form)) [
    | inl t ↦ rw t (
        and_rest-Stays (resolve_list oc api w depth os) st _ (resolve-Fits depth o st known lt)
          (λ st' known' le. resolve_list-Stays depth os st' known' (omega arith)))
    | inr f ↦ rw f (resolve_list-Stays depth os st known lt)
  ]

  -- The resolution of all dependencies ends, though claims and volumes refer to each other: where the
  -- identifiers that objects depend on are those of a finite list, calls nest at most one deeper than
  -- the list is long. The cache can be read by kind, and what discovery and the API give for
  -- one of them is the object that it names.
  pub resolve_all-terminates :
      (depth : ℕ) (st : Cache)
      → AllKnown oc identity st
      → length pool < depth
      → (resolve_all oc api w depth st).1 ≢ some stack_overflow
  unfolding resolve_all missing
  resolve_all-terminates depth st known lt =
      (resolve_list-Stays depth (list st) st known
        (let le = count-le-length (λ d. not (present oc st d)) pool in omega arith)).fits
