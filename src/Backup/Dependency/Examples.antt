-- ===== src/Backup/Dependency/Examples.antt =====
-- Runs of the resolution of dependencies, on a claim, its volume and its class.
use mathlib.Core.Path.{subst}
use kahu.Unstructured.{Object, pointer, same_key, is_unstructured, is_pointer}
use kahu.Backup.Objects.{Identifier, group_version, typed}
use kahu.Backup.Objects.Sample.{list_cache, api, claim, volume, class}
use kahu.Backup.Dependency.{
  depends, Provider, pv_provider, pvc_provider, pod_provider, deployment_provider,
  replica_set_provider, daemon_set_provider, stateful_set_provider, get_provider, provided,
  get_dependency, volume_converted, claim_converted, bound_dependency, workload_converted,
  stateful_set_converted, pod_dependency, core, class_identifier, get_typed, resolve_list, resolve,
  resolve_with, populate_all, populate_dependency, added, fetched, and_rest, already_exist,
  found_among, dependencies, fetch, answers, resolve_all,
}
use kahu.Backup.Dependency.Present.{identifier_of, present, IsKnown, AllKnown}
use kahu.Backup.Dependency.Closed.{resolve_all-closed}
use kahu.Backup.Dependency.Ends.{resolve_all-terminates}
use kahu.Base.{
  ◌<◌, String, ◌≡◌, refl, ◌≢◌, true, Option, none, some, List, [], ◌∷◌, arith, ◌==◌, if◌then◌else◌,
  length, keep, any, ok, Member, here, there, Member-cons, stack_overflow,
}

-- What the objects of the cluster depend on.
abbrev pool : List Identifier
pool = identifier_of claim ∷ identifier_of volume ∷ identifier_of class ∷ []

abbrev identity : String → Identifier
identity uid =
    if uid == "u1"
    then identifier_of claim
    else if uid == "u2"
    then identifier_of volume
    else identifier_of class

in_pool :
    (known ds : List Identifier) (d : Identifier)
    → ((d : Identifier) → Member d known → Member d pool)
    → depends known ≡ depends ds
    → Member d ds
    → Member d pool
in_pool known ds d h e m = let same : ds ≡ known = cc in h d (subst (λ l. Member d l) same m)

none_in_pool : (d : Identifier) → Member d [] → Member d pool
none_in_pool d m = elim m [ ]

provided-pool :
    (p : Option Provider) (o : Object) (ds : List Identifier) (d : Identifier)
    → provided api p "" o ≡ depends ds
    → Member d ds
    → Member d pool
unfolding provided get_dependency volume_converted claim_converted bound_dependency
    workload_converted stateful_set_converted pod_dependency core class_identifier
provided-pool none o ds d e m = in_pool [] ds d none_in_pool e m
provided-pool (some pv_provider) o ds d e m =
    in_pool (identifier_of claim ∷ []) ds d (Member-cons (λ d. Member d pool) here none_in_pool) e m
provided-pool (some pvc_provider) o ds d e m =
    in_pool (identifier_of class ∷ identifier_of volume ∷ []) ds d
      (Member-cons (λ d. Member d pool) (there (there here))
        (Member-cons (λ d. Member d pool) (there here) none_in_pool))
      e m
provided-pool (some pod_provider) o ds d e m = in_pool [] ds d none_in_pool e m
provided-pool (some deployment_provider) o ds d e m = in_pool [] ds d none_in_pool e m
provided-pool (some replica_set_provider) o ds d e m = in_pool [] ds d none_in_pool e m
provided-pool (some daemon_set_provider) o ds d e m = in_pool [] ds d none_in_pool e m
provided-pool (some stateful_set_provider) o ds d e m = in_pool [] ds d none_in_pool e m

dependencies-pool :
    (o : Object) (ds : List Identifier) (d : Identifier)
    → dependencies api "" o ≡ depends ds
    → Member d ds
    → Member d pool
unfolding dependencies
dependencies-pool o = provided-pool (get_provider o.kind) o

abbrev IsFetched : Identifier → Type 0
IsFetched d =
    (o : Object) × (fetch api "" d ≡ ok o)
    × (answers d o ≡ true)
    × (o.form ≡ pointer)
    × (identifier_of o ≡ identity o.uid)

identity-fetch : (d : Identifier) → Member d pool → IsFetched d
unfolding fetch answers typed group_version get_typed
identity-fetch =
    Member-cons IsFetched (claim, refl, refl, refl, refl)
      (Member-cons IsFetched (volume, refl, refl, refl, refl)
        (Member-cons IsFetched (class, refl, refl, refl, refl) (λ d m. elim m [ ])))

fetched_alike :
    (d : Identifier) (o : Object)
    → Member d pool
    → fetch api "" d ≡ ok o
    → (answers d o ≡ true) × (o.form ≡ pointer) × (identifier_of o ≡ identity o.uid)
fetched_alike d o m e =
    let (o', e', a, p, i) = identity-fetch d m in
    let same : o' ≡ o = cc in
    subst (λ o. (answers d o ≡ true) × (o.form ≡ pointer) × (identifier_of o ≡ identity o.uid)) same
      (a, p, i)

start_known : AllKnown list_cache identity (claim ∷ [])
start_known = Member-cons (IsKnown list_cache identity) (refl, refl) (λ o m. elim m [ ])

run_keeps :
    ((resolve_all list_cache api "" 4 (claim ∷ [])).1 ≡ none)
    × Member claim (resolve_all list_cache api "" 4 (claim ∷ [])).0
unfolding resolve_all resolve_list resolve resolve_with populate_all populate_dependency added
    fetched and_rest already_exist found_among answers fetch get_typed typed group_version
    dependencies provided get_provider get_dependency volume_converted claim_converted
    bound_dependency core class_identifier is_unstructured is_pointer keep any same_key
run_keeps = (refl, there (there here))

claim_depends :
    dependencies api "" claim ≡ depends (identifier_of class ∷ identifier_of volume ∷ [])
unfolding dependencies provided get_provider get_dependency claim_converted bound_dependency core
    class_identifier
claim_depends = refl

resolve_all-closed_example :
    present list_cache (resolve_all list_cache api "" 4 (claim ∷ [])).0 (identifier_of class) ≡ true
resolve_all-closed_example =
    resolve_all-closed list_cache api "" identity (λ o st. (_, refl))
      (λ o ds d e m. identity-fetch d (dependencies-pool o ds d e m)) 4 (claim ∷ []) start_known
      run_keeps.0 claim run_keeps.1 _ (identifier_of class) claim_depends here

length-pool : length pool < 4
unfolding length
length-pool = omega arith

resolve_all-terminates_example :
    (resolve_all list_cache api "" 4 (claim ∷ [])).1 ≢ some stack_overflow
resolve_all-terminates_example =
    resolve_all-terminates list_cache api "" identity pool (λ kind st. (_, refl)) dependencies-pool
      fetched_alike 4 (claim ∷ []) start_known length-pool
