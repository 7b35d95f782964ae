-- ===== src/Restore/Resolver.antt =====
-- controllers/restore/resolver.go: the objects that the objects of a restore depend on.
pub mod Depth
pub use kahu.Utils.Kinds.{pv_kind, pvc_kind, sc_kind}
use kahu.Restore.Objects.{Claim}
use kahu.Restore.Filters.{Object, Indexer, is_unstructured}
use kahu.Restore.Cluster.{Cluster, ClaimRef, Fault, raised, stack_overflow, wrap_fault}
use kahu.Base.{
  ℕ, zero, suc, String, Bool, not, ◌&&◌, Option, none, some, List, [], ◌∷◌, ◌==◌, if◌then◌else◌,
  Error, message, wrap, Result, ok, err,
}

pub data Resolver : Type 0 where
  pv_resolver pvc_resolver : Resolver

-- `GetResolver` on the map of `getAllResolvers`.
pub get_resolver : String → Option Resolver
get_resolver kind =
    if kind == pv_kind
    then some pv_resolver
    else if kind == pvc_kind
    then some pvc_resolver
    else none

-- The first object of a loop that has an unstructured form and passes a test.
pub first_match : (Object → Bool) → List Object → Option Object
first_match p [] = none
first_match p (o ∷ os) =
    let rest = first_match p os in if is_unstructured o.form && p o then some o else rest

module _ (ix : Indexer) (c : Cluster ix.Cache) where
  open ix use {Cache, list, add, by_kind}
  open c use {to_volume, to_claim}

  -- What a resolver does to the cache of a restore, given an object and the cache of the backup.
  abbrev Resolution : Type 0
  Resolution = Object → Cache → Cache → Cache × Option Fault

  fail : String → Error → Cache → Cache × Option Fault
  fail context e st = (st, some (raised (wrap e context)))

  add_object : Object → (Cache → Cache × Option Fault) → Cache × Option Error → Cache × Option Fault
  add_object o next (st, none) = next st
  add_object o next (st, some e) = (st, some (raised e))

  -- The object that a loop found is added, and the rest goes on with it.
  with_match :
      String
      → (Object → Cache → Cache × Option Fault)
      → Option Object
      → Cache
      → Cache × Option Fault
  with_match missing next none st = (st, some (raised (message missing)))
  with_match missing next (some o) st = add_object o (next o) (add o st)

  find_class : String → Result (List Object) → Cache → Cache × Option Fault
  find_class class (err e) st = fail "SC does not exist in cache for PVC" e st
  find_class class (ok os) st =
      with_match "SC does not exist in cache for PVC" (λ o st'. (st', none))
        (first_match (λ o. o.name == class) os) st

  claim_converted : Result Claim → Cache → Cache → Cache × Option Fault
  claim_converted (err e) backup_objects st =
      fail "Failed to covert unstructured resource to PVC for resolution" e st
  claim_converted (ok claim) backup_objects st = elim claim.storage_class_name [
    | none ↦ (st, none)
    | some class ↦ find_class class (by_kind sc_kind backup_objects) st
  ]

  -- `pvcResolver.resolve`
  pub resolve_claim : Resolution
  resolve_claim o backup_objects st = claim_converted (to_claim o) backup_objects st

  run_next :
      (Resolver → Resolution) → Option Resolver → Cache → Object → Cache → Cache × Option Fault
  run_next run none backup_objects o st =
      (st, some (raised (wrap (message "resolver not available") "PVC resolver not found")))
  run_next run (some resolver_of) backup_objects o st = run resolver_of o backup_objects st

  -- The resolver of the claim that was found; the map has none for another kind.
  resolve_next : (Resolver → Resolution) → Cache → Object → Cache → Cache × Option Fault
  resolve_next run backup_objects o st = run_next run (get_resolver o.kind) backup_objects o st

  is_referenced : ClaimRef → Object → Bool
  is_referenced claim_ref o = o.namespace == claim_ref.namespace && o.name == claim_ref.name

  find_claim :
      (Resolver → Resolution)
      → ClaimRef
      → Result (List Object)
      → Cache
      → Cache
      → Cache × Option Fault
  find_claim run claim_ref (err e) backup_objects st =
      fail "PVC does not exist in cache for PV" e st
  find_claim run claim_ref (ok os) backup_objects st =
      with_match "PVC does not exist in cache for PV" (resolve_next run backup_objects)
        (first_match (is_referenced claim_ref) os) st

  volume_converted :
      (Resolver → Resolution) → Result (Option ClaimRef) → Cache → Cache → Cache × Option Fault
  volume_converted run (err e) backup_objects st =
      fail "Failed to covert unstructured resource to PV for resolution" e st
  volume_converted run (ok none) backup_objects st = (st, none)
  volume_converted run (ok (some claim_ref)) backup_objects st =
      find_claim run claim_ref (by_kind claim_ref.kind backup_objects) backup_objects st

  -- The call of a resolver, with the depth of calls that the stack has room for.
  pub resolve : ℕ → Resolver → Resolution
  resolve zero kind o backup_objects st = (st, some stack_overflow)
  resolve (suc depth) pvc_resolver o backup_objects st = resolve_claim o backup_objects st
  resolve (suc depth) pv_resolver o backup_objects st =
      volume_converted (resolve depth) (to_volume o) backup_objects st

  -- The rest of the loop, unless a resolver failed.
  and_rest : (Cache → Cache × Option Fault) → Cache × Option Fault → Cache × Option Fault
  and_rest rest (st, none) = rest st
  and_rest rest (st, some fault) =
      (st, some (wrap_fault fault "unable to resolve resource dependency"))

  resolve_one : ℕ → Option Resolver → Resolution
  resolve_one depth none o backup_objects st = (st, none)
  resolve_one depth (some resolver) o backup_objects st = resolve depth resolver o backup_objects st

  resolve_list : ℕ → List Object → Cache → Cache → Cache × Option Fault
  resolve_list depth [] backup_objects st = (st, none)
  resolve_list depth (o ∷ os) backup_objects st =
      if is_unstructured o.form
      then and_rest (resolve_list depth os backup_objects)
          (resolve_one depth (get_resolver o.kind) o backup_objects st)
      else resolve_list depth os backup_objects st

  -- `Resolve`, with the objects that the cache lists at its start.
  pub resolve_all : ℕ → Cache → Cache → Cache × Option Fault
  resolve_all depth restore_objects backup_objects =
      resolve_list depth (list restore_objects) backup_objects restore_objects
