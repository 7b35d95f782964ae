-- ===== src/Backup/Validate/Decides.antt =====
-- Which specifications `validateBackup` accepts.
use kahu.Api.{Backup, BackupSpec, ResourceSpec}
use kahu.Backup.Cluster.{
  Cluster, Machine, Lookup, BackupLocation, Provider, found, not_found, lookup_error,
}
use kahu.Backup.Updaters.{Returned}
use kahu.Backup.Validate.{
  Invalid, namespace_errors, resource_errors, provider_errors, location_errors, metadata_errors,
  validation_errors, reject, validate_backup, failed_with,
}
use kahu.Base.{
  is_empty-sorted_set, keep, String, ◌≡◌, refl, Bool, true, false, not, ◌&&◌, none, some, List, [],
  ◌∷◌, arith, ◌==◌, is_empty, any, all, contains, is_empty-append, is_empty-keep,
}

abbrev is_missing : {A : Type 0} → Lookup A → Bool
is_missing (not_found e) = true
is_missing _ = false

abbrev has_provider : (String → Lookup Provider) → Lookup BackupLocation → Bool
has_provider get_provider (found location) = not (is_missing (get_provider location.provider_name))
has_provider get_provider (not_found e) = false
has_provider get_provider (lookup_error e) = true

-- No namespace is both included and excluded, every resource expression compiles, and there is a
-- metadata location that is not missing and whose provider is not.
abbrev pub accepts : (c : Cluster) → BackupSpec → c.World → Bool
accepts c spec w =
    not (any (contains spec.exclude_namespaces) spec.include_namespaces)
    && (all (λ r. c.compiles r.name) spec.include_resources
        && (all (λ r. c.compiles r.name) spec.exclude_resources
            && (not (spec.metadata_location == "")
                && has_provider (λ p. c.get_provider p w)
                    (c.get_location spec.metadata_location w))))

is_empty-namespace_errors :
    (includes excludes : List String)
    → is_empty (namespace_errors includes excludes) ≡ not (any (contains excludes) includes)
unfolding namespace_errors
is_empty-namespace_errors includes excludes = ground (
  arith,
  is_empty-sorted_set (keep (contains excludes) includes),
  is_empty-keep (contains excludes) includes,
)

is_empty-resource_errors :
    (compiles : String → Bool) (invalid : String → Invalid) (rs : List ResourceSpec)
    → is_empty (resource_errors compiles invalid rs) ≡ all (λ r. compiles r.name) rs
unfolding resource_errors all
is_empty-resource_errors compiles invalid [] = refl
is_empty-resource_errors compiles invalid (r ∷ rs) =
    ground (arith, is_empty-resource_errors compiles invalid rs)

is_empty-location_errors :
    (get_provider : String → Lookup Provider) (name : String) (l : Lookup BackupLocation)
    → is_empty (location_errors get_provider name l) ≡ has_provider get_provider l
unfolding location_errors provider_errors
is_empty-location_errors get_provider name (found l) = ground arith
is_empty-location_errors get_provider name (not_found e) = refl
is_empty-location_errors get_provider name (lookup_error e) = refl

failed_with-false : (r : Returned) → (failed_with r).0 ≡ false
unfolding failed_with
failed_with-false (backup, some e) = refl
failed_with-false (backup, none) = refl

module _ (c : Cluster) where
  is_empty-metadata_errors :
      (name : String) (w : c.World)
      → is_empty (metadata_errors c name w)
        ≡ (not (name == "") && has_provider (λ p. c.get_provider p w) (c.get_location name w))
  unfolding metadata_errors
  is_empty-metadata_errors name w =
      ground
        (arith, is_empty-location_errors (λ p. c.get_provider p w) name (c.get_location name w))

  is_empty-validation_errors :
      (spec : BackupSpec) (w : c.World) → is_empty (validation_errors c spec w) ≡ accepts c spec w
  unfolding validation_errors
  is_empty-validation_errors spec w = simp (
    is_empty-append, is_empty-namespace_errors, is_empty-resource_errors, is_empty-metadata_errors,
  )

  reject_of_errors :
      (backup : Backup) (es : List Invalid) (s : Machine c.World)
      → ((reject c backup es s).0.0 ≡ is_empty es)
        × (is_empty es ≡ true → reject c backup es s ≡ ((true, none), s))
  unfolding reject
  reject_of_errors backup [] s = (refl, λ h. refl)
  reject_of_errors backup (e ∷ es) s = (failed_with-false _, λ h. cc)

-- `validateBackup` accepts a backup exactly when no namespace is both included and excluded, every
-- resource expression compiles, and a metadata location is named that the lister does not miss and
-- whose provider it does not miss. It then changes nothing.
pub validate_backup-accepts :
    (c : Cluster) (backup : Backup) (s : Machine c.World)
    → ((validate_backup c backup s).0.0 ≡ accepts c backup.spec s.world)
      × (accepts c backup.spec s.world ≡ true → validate_backup c backup s ≡ ((true, none), s))
unfolding validate_backup
validate_backup-accepts c backup s =
    rw (← is_empty-validation_errors c backup.spec s.world)
      (reject_of_errors c backup (validation_errors c backup.spec s.world) s)
