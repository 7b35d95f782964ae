-- ===== src/Restore/Resolver/Depth.antt =====
-- How deep the resolvers call each other.
use kahu.Restore.Objects.{Claim}
use kahu.Restore.Filters.{Object, Indexer, is_unstructured}
use kahu.Restore.Cluster.{Cluster, ClaimRef, Fault, raised, nil_pointer, stack_overflow}
use kahu.Restore.Resolver.{
  pv_kind, pvc_kind, Resolver, pv_resolver, pvc_resolver, get_resolver, first_match, fail,
  add_object, with_match, find_class, claim_converted, resolve_claim, resolve_next, run_next,
  is_referenced, find_claim, volume_converted, resolve, and_rest, resolve_one, resolve_list,
  resolve_all,
}
use kahu.Base.{
  ℕ, suc, String, ◌≡◌, refl, ◌∙◌, ◌⊎◌, inl, inr, Bool, true, false, not, ◌&&◌, Option, none, some,
  List, [], ◌∷◌, arith, eq_iff, ◌==◌, Bool-cases, Option-cases, keep, any, Error, Result, ok, err,
}

pub is_overflow : Option Fault → Bool
is_overflow (some stack_overflow) = true
is_overflow _ = false

-- A match passes every test that no object of the list fails.
first_match-none :
    (p f : Object → Bool) (os : List Object) {o : Object}
    → first_match p os ≡ some o
    → any f os ≡ false
    → f o ≡ false
unfolding first_match any
first_match-none p f [] e h = cc
first_match-none p f (o' ∷ os) {o} e h = elim (Bool-cases (is_unstructured o'.form && p o')) [
  | inl t ↦ let same : some o' ≡ some o = rw t at e in let here : f o' ≡ false = ground arith in cc
  | inr g ↦ first_match-none p f os (rw g at e) (ground arith)
]

get_resolver-claim :
    (kind : String)
    → (kind == pv_kind) ≡ false
    → (get_resolver kind ≡ none) ⊎ (get_resolver kind ≡ some pvc_resolver)
unfolding get_resolver
get_resolver-claim kind h = elim (Bool-cases (kind == pvc_kind)) [
  | inl t ↦ inr (rw h (rw t refl))
  | inr f ↦ inl (rw h (rw f refl))
]

module _ (ix : Indexer) (c : Cluster ix.Cache) where
  open ix use {Cache, by_kind}

  -- The run does not leave the stack, whatever it returns.
  abbrev Fits : Cache × Option Fault → Type 0
  Fits r = is_overflow r.1 ≡ false

  add_object-Fits :
      (o : Object) (next : Cache → Cache × Option Fault) (r : Cache × Option Error)
      → ((st : Cache) → Fits (next st))
      → Fits (add_object ix c o next r)
  unfolding add_object is_overflow
  add_object-Fits o next (st, none) h = h st
  add_object-Fits o next (st, some e) h = refl

  with_match-Fits :
      (missing : String) (next : Object → Cache → Cache × Option Fault) (found : Option Object)
      (st : Cache)
      → ((o : Object) → found ≡ some o → (st : Cache) → Fits (next o st))
      → Fits (with_match ix c missing next found st)
  unfolding with_match is_overflow
  with_match-Fits missing next none st h = refl
  with_match-Fits missing next (some o) st h = add_object-Fits o (next o) _ (h o refl)

  find_class-Fits :
      (class : String) (r : Result (List Object)) (st : Cache) → Fits (find_class ix c class r st)
  unfolding find_class fail is_overflow
  find_class-Fits class (err e) st = refl
  find_class-Fits class (ok os) st = with_match-Fits _ _ _ st (λ o e st'. refl)

  claim-Fits :
      (r : Result Claim) (backup_objects st : Cache)
      → Fits (claim_converted ix c r backup_objects st)
  unfolding claim_converted fail is_overflow
  claim-Fits (err e) backup_objects st = refl
  claim-Fits (ok claim) backup_objects st = elim (Option-cases claim.storage_class_name) [
    | inl none_ ↦ rw none_ refl
    | inr (class, e) ↦ rw e (find_class-Fits class _ st)
  ]

  all_of_kind :
      (kind : String) (os : List Object)
      → any (λ o. not (o.kind == kind)) (keep (λ o. o.kind == kind) os) ≡ false
  unfolding any keep
  all_of_kind kind [] = refl
  all_of_kind kind (o ∷ os) = ground (arith, all_of_kind kind os)

  by_kind-kind :
      (kind : String) (st : Cache) {os : List Object}
      → by_kind kind st ≡ ok os
      → any (λ o. not (o.kind == kind)) os ≡ false
  by_kind-kind kind st e = ix.by_kind-list kind st e _ ∙ all_of_kind kind (ix.list st)

  -- The resolver of an object that is no volume does not call another one.
  next-Fits :
      (depth : ℕ) (backup_objects : Cache) (o : Object) (st : Cache)
      → (o.kind == pv_kind) ≡ false
      → Fits (resolve_next ix c (resolve ix c (suc depth)) backup_objects o st)
  unfolding resolve_next run_next resolve resolve_claim is_overflow
  next-Fits depth backup_objects o st h = elim (get_resolver-claim o.kind h) [
    | inl e ↦ rw e refl
    | inr e ↦ rw e (claim-Fits _ backup_objects st)
  ]

  claim_found-Fits :
      (depth : ℕ) (claim_ref : ClaimRef) (r : Result (List Object)) (backup_objects st : Cache)
      → by_kind claim_ref.kind backup_objects ≡ r
      → (claim_ref.kind == pv_kind) ≡ false
      → Fits (find_claim ix c (resolve ix c (suc depth)) claim_ref r backup_objects st)
  unfolding find_claim fail is_overflow
  claim_found-Fits depth claim_ref (err e) backup_objects st listed h = refl
  claim_found-Fits depth claim_ref (ok os) backup_objects st listed h =
      with_match-Fits _ _ _ st (λ o found st'.
        let kind : not (o.kind == claim_ref.kind) ≡ false =
          first_match-none (is_referenced ix c claim_ref) _ os found
            (by_kind-kind claim_ref.kind backup_objects listed) in
        next-Fits depth backup_objects o st' (
          ground (
            arith,
            eq_iff o.kind claim_ref.kind,
            eq_iff o.kind pv_kind,
            eq_iff claim_ref.kind pv_kind,
          )))

  volume-Fits :
      (depth : ℕ) (r : Result (Option ClaimRef)) (backup_objects st : Cache)
      → ((claim_ref : ClaimRef) → r ≡ ok (some claim_ref) → (claim_ref.kind == pv_kind) ≡ false)
      → Fits (volume_converted ix c (resolve ix c (suc depth)) r backup_objects st)
  unfolding volume_converted fail is_overflow
  volume-Fits depth (err e) backup_objects st h = refl
  volume-Fits depth (ok none) backup_objects st h = refl
  volume-Fits depth (ok (some claim_ref)) backup_objects st h =
      claim_found-Fits depth claim_ref _ backup_objects st refl (h claim_ref refl)

  module _
      (claims_only : (o : Object) (claim_ref : ClaimRef)
        → c.to_volume o ≡ ok (some claim_ref)
        → (claim_ref.kind == pv_kind) ≡ false) where
    resolve-Fits :
        (depth : ℕ) (resolver : Option Resolver) (o : Object) (backup_objects st : Cache)
        → Fits (resolve_one ix c (suc (suc depth)) resolver o backup_objects st)
    unfolding resolve_one resolve resolve_claim is_overflow
    resolve-Fits depth none o backup_objects st = refl
    resolve-Fits depth (some pvc_resolver) o backup_objects st = claim-Fits _ backup_objects st
    resolve-Fits depth (some pv_resolver) o backup_objects st =
        volume-Fits depth _ backup_objects st (claims_only o)

    rest-Fits :
        (rest : Cache → Cache × Option Fault) (r : Cache × Option Fault)
        → ((st : Cache) → Fits (rest st))
        → Fits r
        → Fits (and_rest ix c rest r)
    unfolding and_rest is_overflow
    rest-Fits rest (st, none) h e = h st
    rest-Fits rest (st, some (raised err_)) h e = refl
    rest-Fits rest (st, some nil_pointer) h e = refl
    rest-Fits rest (st, some stack_overflow) h e = e

    list-Fits :
        (depth : ℕ) (os : List Object) (backup_objects st : Cache)
        → Fits (resolve_list ix c (suc (suc depth)) os backup_objects st)
    unfolding resolve_list is_overflow
    list-Fits depth [] backup_objects st = refl
    list-Fits depth (o ∷ os) backup_objects st = elim (Bool-cases (is_unstructured o.form)) [
      | inl t ↦ rw t (
          rest-Fits _ _ (list-Fits depth os backup_objects)
            (resolve-Fits depth (get_resolver o.kind) o backup_objects st))
      | inr f ↦ rw f (list-Fits depth os backup_objects st)
    ]

-- Where no volume refers to a volume as its claim, the resolution of all dependencies ends: no
-- resolver is called more than two deep.
pub resolve_all-ends :
    (ix : Indexer) (c : Cluster ix.Cache) (depth : ℕ) (restore_objects backup_objects : ix.Cache)
    → ((o : Object) (claim_ref : ClaimRef)
        → c.to_volume o ≡ ok (some claim_ref)
        → (claim_ref.kind == pv_kind) ≡ false)
    → is_overflow (resolve_all ix c (suc (suc depth)) restore_objects backup_objects).1 ≡ false
unfolding resolve_all
resolve_all-ends ix c depth restore_objects backup_objects claims_only =
    list-Fits ix c claims_only depth (ix.list restore_objects) backup_objects restore_objects
