-- ===== src/Backup/Dependency/Closed.antt =====
-- The resolution of a backup's dependencies leaves a cache that holds them all.
use mathlib.Core.Path.{subst}
use kahu.Unstructured.{Object, pointer, is_unstructured}
use kahu.Backup.Objects.{ObjectCache, Identifier, Api}
use kahu.Backup.Dependency.Present.{
  identifier_of, IsKnown, AllKnown, add-AllKnown, present, present-of_Member, present-add,
  already_exist-present, pointer-unstructured,
}
use kahu.Backup.Dependency.{
  Dependencies, depends, unresolved, nil_class, dependencies, fetch, answers, already_exist, Run,
  added, fetched, populate_dependency, and_rest, populate_all, resolve_with, resolve, resolve_list,
  resolve_all,
}
use kahu.Base.{
  ℕ, zero, suc, String, ◌≡◌, refl, sym, ◌∙◌, ◌⊎◌, inl, inr, true, Option, none, some, List, [], ◌∷◌,
  Bool-cases, ok, Member, here, there, Member-cons, Fault, raised, nil_pointer, stack_overflow,
}

module _ (oc : ObjectCache) {World : Type 0} (api : Api World) (w : World)
    (identity : String → Identifier)
    (accepts : (o : Object) (st : oc.Cache) → (st' : oc.Cache) × (oc.add o st ≡ (st', none)))
    (fetches : (o : Object) (ds : List Identifier) (d : Identifier)
      → dependencies api w o ≡ depends ds
      → Member d ds
      → (o' : Object) × (fetch api w d ≡ ok o')
        × (answers d o' ≡ true)
        × (o'.form ≡ pointer)
        × (identifier_of o' ≡ identity o'.uid)) where
  open oc use {Cache, list, add, add-list}

  -- All that an object depends on is in the cache.
  abbrev pub IsClosed : Cache → Object → Type 0
  IsClosed st o =
      (ds : List Identifier) (d : Identifier)
      → dependencies api w o ≡ depends ds
      → Member d ds
      → present oc st d ≡ true

  -- What a run makes of a cache: it keeps what is there, and what it adds is closed.
  record Grows (st st' : Cache) : Type 0 where
    pub known : AllKnown oc identity st'
    pub keeps : (d : Identifier) → present oc st d ≡ true → present oc st' d ≡ true
    pub closes : (o : Object) → Member o (list st') → Member o (list st) ⊎ IsClosed st' o

  -- What holds of the cache of a run that did not crash. A run returns no error.
  abbrev Ending : Option Fault → Type 0 → Type 0
  Ending none P = P
  Ending (some (raised e)) P = ⊥
  Ending (some _) P = Unit

  Grows-refl : (st : Cache) → AllKnown oc identity st → Grows st st
  Grows-refl st k = record { known = k; keeps = λ d t. t; closes = λ o m. inl m }

  Grows-trans : {st st' st'' : Cache} → Grows st st' → Grows st' st'' → Grows st st''
  Grows-trans g h = record {
    known = h.known;
    keeps = λ d t. h.keeps d (g.keeps d t);
    closes = λ o m. elim (h.closes o m) [
      | inl old ↦ elim (g.closes o old) [
        | inl older ↦ inl older
        | inr closed ↦ inr (λ ds d e m'. h.keeps d (closed ds d e m'))
      ]
      | inr closed ↦ inr closed
    ];
  }

  -- An added object that is closed in the end makes one step of growth with what follows.
  Grows-added :
      (o : Object) {st st' st'' : Cache}
      → add o st ≡ (st', none)
      → IsKnown oc identity o
      → AllKnown oc identity st
      → Grows st' st''
      → IsClosed st'' o
      → Grows st st''
  Grows-added o {st} e k h g closed = record {
    known = g.known;
    keeps = λ d t. g.keeps d (present-add oc identity o st d e k h t);
    closes = λ p m. elim (g.closes p m) [
      | inl mid ↦ elim ((add-list o st e p).0 mid) [
        | inl same ↦ inr (rw same closed)
        | inr old ↦ inl old.0
      ]
      | inr done ↦ inr done
    ];
  }

  -- What holds of the cache after a run, unless it crashed.
  abbrev Ends : (Cache → Type 0) → Run oc api w → Type 0
  Ends P r = Ending r.1 (P r.0)

  Ends-map :
      (P Q : Cache → Type 0) (r : Run oc api w) → ((st : Cache) → P st → Q st) → Ends P r → Ends Q r
  Ends-map P Q (st, none) f p = f st p
  Ends-map P Q (st, some (raised e)) f p = p
  Ends-map P Q (st, some nil_pointer) f p = tt
  Ends-map P Q (st, some stack_overflow) f p = tt

  and_rest-Ends :
      (P Q : Cache → Type 0) (rest : Cache → Run oc api w) (r : Run oc api w)
      → Ends P r
      → ((st : Cache) → P st → Ends Q (rest st))
      → Ends Q (and_rest oc api w rest r)
  unfolding and_rest
  and_rest-Ends P Q rest (st, none) p f = f st p
  and_rest-Ends P Q rest (st, some (raised e)) p f = absurd p
  and_rest-Ends P Q rest (st, some nil_pointer) p f = tt
  and_rest-Ends P Q rest (st, some stack_overflow) p f = tt

  abbrev Fetched : Identifier → Type 0
  Fetched d =
      (o' : Object) × (fetch api w d ≡ ok o')
      × (answers d o' ≡ true)
      × (o'.form ≡ pointer)
      × (identifier_of o' ≡ identity o'.uid)

  abbrev Resolved : Object → Cache → Cache → Type 0
  Resolved o st st' = Grows st st' × IsClosed st' o

  -- What is asked of the recursive calls.
  abbrev Resolves : (Object → Cache → Run oc api w) → Type 0
  Resolves next =
      (o : Object) (st : Cache) → AllKnown oc identity st → Ends (Resolved o st) (next o st)

  populate-Ends :
      (next : Object → Cache → Run oc api w) (d : Identifier) (st : Cache)
      → Resolves next
      → Fetched d
      → AllKnown oc identity st
      → Ends
          (λ st'. Grows st st' × (present oc st' d ≡ true))
          (populate_dependency oc api w next d st)
  unfolding populate_dependency fetched added
  populate-Ends next d st h (o, e, t, p, i) known =
      let k : IsKnown oc identity o = (p, i) in
      let (st', a) = accepts o st in
      let known' = add-AllKnown oc identity o st a k known in
      let there_ =
        present-of_Member oc d st' ((add-list o st a o).1 (inl refl)) (pointer-unstructured k.0)
          t in
      rw e (
        rw a (
          Ends-map (Resolved o st') (λ st''. Grows st st'' × (present oc st'' d ≡ true))
            (next o st') (λ st'' (g, closed). (Grows-added o a k known g closed, g.keeps d there_))
            (h o st' known')))

  abbrev Populated : List Identifier → Cache → Cache → Type 0
  Populated ds st st' = Grows st st' × ((d : Identifier) → Member d ds → present oc st' d ≡ true)

  populate_all-Ends :
      (next : Object → Cache → Run oc api w) (ds : List Identifier) (st : Cache)
      → Resolves next
      → ((d : Identifier) → Member d ds → Fetched d)
      → AllKnown oc identity st
      → Ends (Populated ds st) (populate_all oc api w next ds st)
  unfolding populate_all
  populate_all-Ends next [] st h f known = (Grows-refl st known, λ d m. elim m [ ])
  populate_all-Ends next (d ∷ ds) st h f known = elim (Bool-cases (already_exist oc api w d st)) [
    | inl t ↦ rw t (
        Ends-map (Populated ds st) (Populated (d ∷ ds) st) (populate_all oc api w next ds st)
          (λ st' (g, all_). (
            g,
            Member-cons (λ d'. present oc st' d' ≡ true)
                (g.keeps d (already_exist-present oc api w d st t)) all_,
          ))
          (populate_all-Ends next ds st h (λ d' m. f d' (there m)) known))
    | inr no_ ↦ rw no_ (
        and_rest-Ends (λ st'. Grows st st' × (present oc st' d ≡ true)) (Populated (d ∷ ds) st)
          (populate_all oc api w next ds) _ (populate-Ends next d st h (f d here) known)
          (λ st' (g, t).
            Ends-map (Populated ds st') (Populated (d ∷ ds) st) (populate_all oc api w next ds st')
              (λ st'' (g', all_). (
                Grows-trans g g',
                Member-cons (λ d'. present oc st'' d' ≡ true) (g'.keeps d t) all_,
              ))
              (populate_all-Ends next ds st' h (λ d' m. f d' (there m)) g.known)))
  ]

  with-Ends :
      (next : Object → Cache → Run oc api w) (o : Object) (st : Cache) (r : Dependencies)
      → dependencies api w o ≡ r
      → Resolves next
      → AllKnown oc identity st
      → Ends (Resolved o st) (resolve_with oc api w next r st)
  unfolding resolve_with
  with-Ends next o st (depends ds) e h known =
      Ends-map (Populated ds st) (Resolved o st) (populate_all oc api w next ds st)
        (λ st' (g, all_). (
          g,
          λ ds' d e' m.
              let same : depends ds ≡ depends ds' = sym e ∙ e' in
              let same_list : ds' ≡ ds = cc in all_ d (subst (λ l. Member d l) same_list m),
        ))
        (populate_all-Ends next ds st h (λ d m. fetches o ds d e m) known)
  with-Ends next o st (unresolved x) e h known = (Grows-refl st known, λ ds d e' m. absurd (cc))
  with-Ends next o st nil_class e h known = tt

  resolve-Ends : (depth : ℕ) → Resolves (resolve oc api w depth)
  unfolding resolve
  resolve-Ends zero o st known = tt
  resolve-Ends (suc depth) o st known =
      with-Ends (resolve oc api w depth) o st (dependencies api w o) refl (resolve-Ends depth) known

  abbrev AllResolved : List Object → Cache → Cache → Type 0
  AllResolved os st st' = Grows st st' × ((o : Object) → Member o os → IsClosed st' o)

  resolve_list-Ends :
      (depth : ℕ) (os : List Object) (st : Cache)
      → AllKnown oc identity st
      → ((o : Object) → Member o os → is_unstructured o.form ≡ true)
      → Ends (AllResolved os st) (resolve_list oc api w depth os st)
  unfolding resolve_list
  resolve_list-Ends depth [] st known u = (Grows-refl st known, λ o m. elim m [ ])
  resolve_list-Ends depth (o ∷ os) st known u = rw (u o here) (
      and_rest-Ends (Resolved o st) (AllResolved (o ∷ os) st) (resolve_list oc api w depth os) _
        (resolve-Ends depth o st known)
        (λ st' (g, closed).
          Ends-map (AllResolved os st') (AllResolved (o ∷ os) st)
            (resolve_list oc api w depth os st')
            (λ st'' (g', all_). (
              Grows-trans g g',
              Member-cons (IsClosed st'') (λ ds d e m. g'.keeps d (closed ds d e m)) all_,
            ))
            (resolve_list-Ends depth os st' g.known (λ p m. u p (there m)))))

  closed_of : (P : Type 0) (fault : Option Fault) → Ending fault P → fault ≡ none → P
  closed_of P none p e = p
  closed_of P (some fault) p e = cc

  -- Where the resolution of all dependencies does not crash, the cache afterwards holds, for each of
  -- its objects, every object that it depends on. The cache takes what is added; discovery and the
  -- API give for each dependency the object that it names; and the objects have keys that tell them
  -- apart.
  pub resolve_all-closed :
      (depth : ℕ) (st : Cache)
      → AllKnown oc identity st
      → (resolve_all oc api w depth st).1 ≡ none
      → (o : Object) → Member o (list (resolve_all oc api w depth st).0)
      → (ds : List Identifier) (d : Identifier) → dependencies api w o ≡ depends ds
      → Member d ds
      → present oc (resolve_all oc api w depth st).0 d ≡ true
  unfolding resolve_all
  resolve_all-closed depth st known e o m ds d deps m' =
      let (g, all_) =
        closed_of _ _
          (resolve_list-Ends depth (list st) st known (λ p m'. pointer-unstructured (known p m').0))
          e in
      elim (g.closes o m) [ inl old ↦ all_ o old ds d deps m' | inr closed ↦ closed ds d deps m' ]
