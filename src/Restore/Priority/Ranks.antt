-- ===== src/Restore/Priority/Ranks.antt =====
-- The order of the objects by the place of their kind in the list of priorities.
use mathlib.Core.List.{append_assoc}
use kahu.Restore.Filters.{Object}
use kahu.Restore.Priority.{sorted_by, prioritise_resources, default_restore_priorities}
use kahu.Restore.Priority.Kinds.{separates_kinds, distinct, prioritise_by-kinds}
use kahu.Base.{
  ℕ, suc, String, ◌≡◌, refl, ◌∙◌, inl, inr, Bool, true, false, not, ◌&&◌, List, [], ◌∷◌, ◌++◌, map,
  arith, eq_iff, ◌==◌, leb, if◌then◌else◌, Bool-cases, keep, all, contains, all-append, all-keep,
}

-- The place of a kind in the list, and the list's length for a kind that it lacks.
pub rank : List String → String → ℕ
rank [] kind = 0
rank (k ∷ ks) kind = let rest = rank ks kind in if k == kind then 0 else suc rest

-- No number is below the one before it, and the first is not below `n`.
pub rises_from : ℕ → List ℕ → Bool
rises_from n [] = true
rises_from n (x ∷ xs) = leb n x && rises_from x xs

module _ (kind : String) (kinds : List String) where
  abbrev rank_of : Object → ℕ
  rank_of o = rank (kind ∷ kinds) o.kind

  -- Objects of the first kind can be put before a list that rises.
  rises-first :
      (os rest : List Object)
      → rises_from 0 (map rank_of rest) ≡ true
      → rises_from 0 (map rank_of (keep (λ o. o.kind == kind) os ++ rest)) ≡ true
  unfolding rises_from rank keep
  rises-first [] rest h = h
  rises-first (o ∷ os) rest h =
      ground (arith, rises-first os rest h, eq_iff o.kind kind, eq_iff kind o.kind)

  -- For objects of other kinds the place in the longer list is the next one.
  rises-next :
      (n : ℕ) (os : List Object)
      → all (λ o. not (o.kind == kind)) os ≡ true
      → rises_from n (map (λ o. rank kinds o.kind) os) ≡ true
      → rises_from (suc n) (map rank_of os) ≡ true
  unfolding rises_from rank all
  rises-next n [] h r = refl
  rises-next n (o ∷ os) h r = elim (Bool-cases (kind == o.kind)) [
    | inl t ↦ ground (arith, eq_iff o.kind kind, eq_iff kind o.kind)
    | inr f ↦
        let ih = rises-next (rank kinds o.kind) os (ground arith) (ground arith) in
        rw f (ground arith)
  ]

  keep_other :
      (k : String) (os : List Object)
      → (k == kind) ≡ false
      → all (λ o. not (o.kind == kind)) (keep (λ o. o.kind == k) os) ≡ true
  unfolding all keep
  keep_other k [] h = refl
  keep_other k (o ∷ os) h =
      ground (arith, keep_other k os h, eq_iff o.kind k, eq_iff o.kind kind, eq_iff k kind)

  sorted_other :
      (ks : List String) (os : List Object)
      → contains ks kind ≡ false
      → all (λ o. not (o.kind == kind)) (sorted_by ks os) ≡ true
  unfolding sorted_by all contains
  sorted_other [] os h = refl
  sorted_other (k ∷ ks) os h =
      let first = keep_other k os (ground arith) in
      let rest = sorted_other ks os (ground arith) in
      all-append _ (keep (λ o. o.kind == k) os) (sorted_by ks os) ∙ ground arith

  left_other :
      (os : List Object)
      → all (λ o. not (contains (kind ∷ kinds) o.kind)) os ≡ true
      → (all (λ o. not (o.kind == kind)) os ≡ true)
        × (all (λ o. not (contains kinds o.kind)) os ≡ true)
  unfolding all contains
  left_other [] h = (refl, refl)
  left_other (o ∷ os) h = ground (arith, left_other os, eq_iff o.kind kind, eq_iff kind o.kind)

rises-zero : (os : List Object) → rises_from 0 (map (λ o. rank [] o.kind) os) ≡ true
unfolding rises_from rank
rises-zero [] = refl
rises-zero (o ∷ os) = rises-zero os

rises_lower : (n : ℕ) (xs : List ℕ) → rises_from (suc n) xs ≡ true → rises_from n xs ≡ true
unfolding rises_from
rises_lower n [] h = refl
rises_lower n (x ∷ xs) h = ground arith

-- The sorted objects and those that are left rise in the place of their kind.
rises-sorted_by :
    (kinds : List String) (os left : List Object)
    → distinct kinds ≡ true
    → all (λ o. not (contains kinds o.kind)) left ≡ true
    → rises_from 0 (map (λ o. rank kinds o.kind) (sorted_by kinds os ++ left)) ≡ true
unfolding sorted_by
rises-sorted_by [] os left d h = rises-zero left
rises-sorted_by (kind ∷ kinds) os left d h =
    let (others, lacking) = left_other kind kinds left h in
    let rest = sorted_by kinds os ++ left in
    let apart =
      all-append (λ o. not (o.kind == kind)) (sorted_by kinds os) left
      ∙ rw (sorted_other kind kinds kinds os (ground arith)) others in
    let ih = rises-sorted_by kinds os left (ground arith) lacking in
    rw (append_assoc (keep (λ o. o.kind == kind) os) (sorted_by kinds os) left)
      (rises-first kind kinds os rest (rises_lower 0 _ (rises-next kind kinds 0 rest apart ih)))

-- `prioritiseResources` puts its resources in the order of `defaultRestorePriorities`, those of a
-- kind that is not listed last: none comes after one of a later kind, where resources of two kinds
-- never have one canonical name.
pub prioritise_resources-rises :
    (os : List Object)
    → separates_kinds os ≡ true
    → rises_from 0 (map (λ o. rank default_restore_priorities o.kind) (prioritise_resources os))
      ≡ true
unfolding prioritise_resources contains
prioritise_resources-rises os h = rw (prioritise_by-kinds default_restore_priorities os h) (
    rises-sorted_by default_restore_priorities os _ refl
      (all-keep (λ o. not (contains default_restore_priorities o.kind)) os))
