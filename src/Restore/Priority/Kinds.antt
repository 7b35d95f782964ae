-- ===== src/Restore/Priority/Kinds.antt =====
-- Which objects come to their places by their kind.
use kahu.Restore.Filters.{Object}
use kahu.Restore.Priority.{
  sorted_by, canonical_name, prioritise_by, prioritise_resources, default_restore_priorities,
}
use kahu.Base.{
  ◌+◌, String, ◌≡◌, refl, sym, ap, ◌∙◌, inl, inr, Bool, true, false, not, ◌&&◌, ◌||◌, List, [], ◌∷◌,
  ◌++◌, map, arith, eq_iff, eq_refl, ◌==◌, Bool-cases, keep, any, all, any-append, contains, Member,
  count, count-append, any-Member, all-Member, Member-any, keep-agree, contains-map,
}

-- Among these objects, those with one canonical name are of one kind.
abbrev pub separates_kinds : List Object → Bool
separates_kinds os =
    all (λ p. all (λ q. not (canonical_name p == canonical_name q) || p.kind == q.kind) os) os

abbrev pub distinct : List String → Bool
distinct [] = true
distinct (x ∷ xs) = not (contains xs x) && distinct xs

module _ (p : Object → Bool) where
  any-none : (os : List Object) → any (λ o. false) os ≡ false
  unfolding any
  any-none [] = refl
  any-none (o ∷ os) = any-none os

  any-kinds :
      (kind : String) (kinds : List String) (os : List Object)
      → (any p (keep (λ o. o.kind == kind) os) || any (λ o. contains kinds o.kind && p o) os)
        ≡ any (λ o. contains (kind ∷ kinds) o.kind && p o) os
  unfolding any keep contains
  any-kinds kind kinds [] = refl
  any-kinds kind kinds (o ∷ os) =
      ground (arith, any-kinds kind kinds os, eq_iff kind o.kind, eq_iff o.kind kind)

  any-sorted_by :
      (kinds : List String) (os : List Object)
      → any p (sorted_by kinds os) ≡ any (λ o. contains kinds o.kind && p o) os
  unfolding sorted_by contains any
  any-sorted_by [] os = sym (any-none os)
  any-sorted_by (kind ∷ kinds) os =
      any-append p (keep (λ o. o.kind == kind) os) (sorted_by kinds os)
      ∙ rw (any-sorted_by kinds os) (any-kinds kind kinds os)

abbrev named : Object → Object → Bool
named o q = canonical_name q == canonical_name o

abbrev found : List String → Object → Object → Bool
found kinds o q = contains kinds q.kind && named o q

abbrev alike : Object → Object → Bool
alike p q = not (canonical_name p == canonical_name q) || p.kind == q.kind

-- An object's canonical name is among the sorted ones exactly when its kind is a priority.
sorted-contains :
    (kinds : List String) (os : List Object)
    → separates_kinds os ≡ true
    → (o : Object) → Member o os
    → contains (map canonical_name (sorted_by kinds os)) (canonical_name o) ≡ contains kinds o.kind
sorted-contains kinds os h o m =
    contains-map canonical_name (sorted_by kinds os) (canonical_name o)
    ∙ any-sorted_by (named o) kinds os
    ∙ elim (Bool-cases (any (found kinds o) os)) [
      | inl t ↦
          let (q, mq, both) = Member-any (found kinds o) os t in
          let alike = all-Member (alike q) m (all-Member (λ q. all (alike q) os) mq h) in
          rw t (ground (arith, eq_iff q.kind o.kind, eq_iff (canonical_name q) (canonical_name o)))
      | inr f ↦ elim (Bool-cases (contains kinds o.kind)) [
        | inl t ↦
            let is_found =
              any-Member (found kinds o) m (ground (arith, eq_refl (canonical_name o))) in
            cc
        | inr g ↦ rw f (sym g)
      ]
    ]

-- The objects of the kinds in the list, in its order, and then the others: what the code does,
-- without the canonical names.
pub prioritise_by-kinds :
    (kinds : List String) (os : List Object)
    → separates_kinds os ≡ true
    → prioritise_by kinds os ≡ sorted_by kinds os ++ keep (λ o. not (contains kinds o.kind)) os
unfolding prioritise_by
prioritise_by-kinds kinds os h =
    ap (λ rest. sorted_by kinds os ++ rest)
      (keep-agree _ _ os (λ o m. ap not (sorted-contains kinds os h o m)))

module _ (p : Object → Bool) where
  count-kind :
      (kind : String) (kinds : List String) (os : List Object)
      → contains kinds kind ≡ false
      → count p (keep (λ o. o.kind == kind) os)
          + count p (keep (λ o. not (contains (kind ∷ kinds) o.kind)) os)
        ≡ count p (keep (λ o. not (contains kinds o.kind)) os)
  unfolding count keep contains
  count-kind kind kinds [] h = refl
  count-kind kind kinds (o ∷ os) h = elim (Bool-cases (o.kind == kind)) [
    | inl t ↦
        let e = (eq_iff o.kind kind).0 t in
        let ih = count-kind kind kinds os h in
        let d = ap (contains kinds) e ∙ h in let r = (eq_iff kind o.kind).1 (sym e) in ground arith
    | inr f ↦ ground (arith, count-kind kind kinds os h, eq_iff o.kind kind, eq_iff kind o.kind)
  ]

  count-all : (os : List Object) → count p (keep (λ o. true) os) ≡ count p os
  unfolding count keep
  count-all [] = refl
  count-all (o ∷ os) = ground (arith, count-all os)

  count-sorted_by :
      (kinds : List String) (os : List Object)
      → distinct kinds ≡ true
      → count p (sorted_by kinds os) + count p (keep (λ o. not (contains kinds o.kind)) os)
        ≡ count p os
  unfolding sorted_by count contains keep
  count-sorted_by [] os h = omega (arith, count-all os)
  count-sorted_by (kind ∷ kinds) os h =
      let split = count-append p (keep (λ o. o.kind == kind) os) (sorted_by kinds os) in
      let here = count-kind kind kinds os (ground arith) in
      let ih = count-sorted_by kinds os (ground arith) in rw split (omega (arith, here, ih))

-- Whatever one counts, the resources that `prioritiseResources` returns are those that it was given,
-- each as often: where resources of two kinds never have one canonical name, none is lost and none
-- is applied twice.
pub prioritise_resources-count :
    (os : List Object) (p : Object → Bool)
    → separates_kinds os ≡ true
    → count p (prioritise_resources os) ≡ count p os
unfolding prioritise_resources contains
prioritise_resources-count os p h = rw (prioritise_by-kinds default_restore_priorities os h) (
    count-append p (sorted_by default_restore_priorities os) _
    ∙ count-sorted_by p default_restore_priorities os refl)
