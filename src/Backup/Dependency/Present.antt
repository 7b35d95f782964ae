-- ===== src/Backup/Dependency/Present.antt =====
-- Which dependencies stand in the cache of a backup.
use kahu.Unstructured.{Object, Form, pointer, same_key, is_unstructured}
use kahu.Backup.Objects.{ObjectCache, Identifier, Api}
use kahu.Backup.Dependency.{answers, already_exist, found_among}
use kahu.Base.{
  String, ◌≡◌, refl, sym, ap, ◌∙◌, ◌↔◌, inl, inr, Bool, true, false, ◌&&◌, none, List, arith,
  eq_iff, eq_refl, Bool-cases, any, ok, Member, any-Member, Member-any, Result-cases,
}

-- What the dependency resolver reads of an object.
abbrev pub identifier_of : Object → Identifier
identifier_of o = record {
  group_version = o.api_version;
  kind = o.kind;
  namespace = o.namespace;
  name = o.name;
}

pub answers_iff : (d : Identifier) (o : Object) → (answers d o ≡ true) ↔ (d ≡ identifier_of o)
unfolding answers
answers_iff d o = (
  λ h. ground (
    arith,
    eq_iff d.group_version o.api_version,
    eq_iff d.kind o.kind,
    eq_iff d.name o.name,
    eq_iff d.namespace o.namespace,
  ),
  λ e. rw e (simp (eq_refl) refl),
)

pub pointer-unstructured : {f : Form} → f ≡ pointer → is_unstructured f ≡ true
unfolding is_unstructured
pointer-unstructured e = rw e refl

module _ (oc : ObjectCache) where
  open oc use {Cache, list, add, by_kind, add-list, by_kind-list}

  -- An object that is found for the identifier is in the cache.
  pub present : Cache → Identifier → Bool
  present st d = any (λ o. is_unstructured o.form && answers d o) (list st)

  -- The objects of the cache are the ones that their keys identify.
  abbrev pub IsKnown : (String → Identifier) → Object → Type 0
  IsKnown identity o = (o.form ≡ pointer) × (identifier_of o ≡ identity o.uid)

  abbrev pub AllKnown : (String → Identifier) → Cache → Type 0
  AllKnown identity st = (o : Object) → Member o (list st) → IsKnown identity o

  pub add-AllKnown :
      (identity : String → Identifier) (o : Object) (st : Cache) {st' : Cache}
      → add o st ≡ (st', none)
      → IsKnown identity o
      → AllKnown identity st
      → AllKnown identity st'
  add-AllKnown identity o st e k h p m = elim ((add-list o st e p).0 m) [
    | inl same ↦ rw same k
    | inr old ↦ h p old.0
  ]

  pub present-of_Member :
      (d : Identifier) {o : Object} (st : Cache)
      → Member o (list st)
      → is_unstructured o.form ≡ true
      → answers d o ≡ true
      → present st d ≡ true
  unfolding present
  present-of_Member d st m u h = any-Member _ m (ground arith)

  -- Nothing that is present gets lost where an object is added.
  pub present-add :
      (identity : String → Identifier) (o : Object) (st : Cache) {st' : Cache} (d : Identifier)
      → add o st ≡ (st', none)
      → IsKnown identity o
      → AllKnown identity st
      → present st d ≡ true
      → present st' d ≡ true
  unfolding present same_key
  present-add identity o st {st'} d e k h t =
      let (p, m, found) = Member-any _ (list st) t in
      let of_p : answers d p ≡ true = ground arith in
      elim (Bool-cases (same_key p o)) [
        | inl same ↦
            let known : identifier_of p ≡ identifier_of o =
              (h p m).1 ∙ ap identity ((eq_iff p.uid o.uid).0 same) ∙ sym k.1 in
            present-of_Member d st' ((add-list o st e o).1 (inl refl)) (pointer-unstructured k.0)
              ((answers_iff d o).1 ((answers_iff d p).0 of_p ∙ known))
        | inr other ↦
            present-of_Member d st' ((add-list o st e p).1 (inr (m, other)))
              (pointer-unstructured (h p m).0) of_p
      ]

  -- The test of the code, where the index can be read and the cache holds pointers.
  pub already_exist-present :
      {World : Type 0} (api : Api World) (w : World) (d : Identifier) (st : Cache)
      → already_exist oc api w d st ≡ true
      → present st d ≡ true
  unfolding already_exist found_among
  already_exist-present api w d st t = elim (Result-cases (by_kind d.kind st)) [
    | inl (os, e) ↦
        let (p, m, found) = Member-any _ os (rw e at t) in
        present-of_Member d st ((by_kind-list d.kind st e p).0 m).0 (ground arith) (ground arith)
    | inr (e, f) ↦ let no : false ≡ true = rw f at t in cc
  ]

  pub present-already_exist :
      {World : Type 0} (api : Api World) (w : World) (d : Identifier) (st : Cache)
      {os : List Object}
      → by_kind d.kind st ≡ ok os
      → ((o : Object) → Member o (list st) → o.form ≡ pointer)
      → present st d ≡ true
      → already_exist oc api w d st ≡ true
  unfolding already_exist found_among present
  present-already_exist api w d st {os} e pointers t =
      let (p, m, found) = Member-any _ (list st) t in
      let same = (answers_iff d p).0 (ground arith) in
      let among = (by_kind-list d.kind st e p).1 (m, pointers p m, sym (ap (λ i. i.kind) same)) in
      rw e (any-Member _ among found)
