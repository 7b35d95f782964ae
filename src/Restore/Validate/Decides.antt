-- ===== src/Restore/Validate/Decides.antt =====
-- Which specifications `validateRestore` accepts.
use kahu.Api.{Backup, ResourceSpec}
use kahu.Backup.Cluster.{Lookup, found, not_found, lookup_error, BackupLocation, Provider}
use kahu.Restore.Objects.{Restore}
use kahu.Restore.Filters.{Indexer}
use kahu.Restore.Cluster.{Cluster, Machine, Work, Fault, wrote_status, ask}
use kahu.Restore.History.{Adding, Adding-pure, Adding-bind, Adding-ask, adding_rules}
use kahu.Restore.Updaters.{Returned, update_restore_status}
use kahu.Restore.Updaters.Writes.{update_restore_status-Adding, update_restore_status-history}
use kahu.Restore.Content.{
  fetch_backup_info, fetch_location, fetch_provider, and_then, or_unavailable,
}
use kahu.Restore.Validate.{
  Invalid, namespace_errors, resource_errors, backup_errors, validation_errors, rejected, reject,
  validate_restore, failed_with, describe,
}
use kahu.Base.{
  String, ◌≡◌, refl, ap, ◌∙◌, Bool, true, false, not, ◌&&◌, Option, none, some, List, [], ◌∷◌, map,
  arith, is_empty, keep, any, all, contains, is_empty-sorted_set, is_empty-append, is_empty-keep,
}

is_found : {A : Type 0} → Lookup A → Bool
is_found (found a) = true
is_found _ = false

-- The location that a backup names is found, and the provider that the location names.
has_location : (ix : Indexer) (c : Cluster ix.Cache) → c.World → Lookup BackupLocation → Bool
unfolding is_found
has_location ix c w (found location) = is_found (c.get_provider location.provider_name w)
has_location ix c w _ = false

has_backup : (ix : Indexer) (c : Cluster ix.Cache) → c.World → Lookup Backup → Bool
unfolding has_location
has_backup ix c w (found backup) =
    has_location ix c w (c.get_location backup.spec.metadata_location w)
has_backup ix c w _ = false

-- No namespace is both included and excluded, every resource expression compiles, and the backup
-- that the restore names is found, its metadata location, and the location's provider.
pub accepts : (ix : Indexer) (c : Cluster ix.Cache) → Restore → c.World → Bool
unfolding has_backup
accepts ix c restore w =
    not (any (contains restore.spec.exclude_namespaces) restore.spec.include_namespaces)
    && (all (λ r. c.compiles r.name) restore.spec.include_resources
        && (all (λ r. c.compiles r.name) restore.spec.exclude_resources
            && has_backup ix c w (c.get_backup restore.spec.backup_name w)))

is_empty-namespace_errors :
    (includes excludes : List String)
    → is_empty (namespace_errors includes excludes) ≡ not (any (contains excludes) includes)
unfolding namespace_errors
is_empty-namespace_errors includes excludes = ground (
  arith,
  is_empty-sorted_set (keep (contains excludes) includes),
  is_empty-keep (contains excludes) includes,
)

is_empty-resource_errors :
    (compiles : String → Bool) (invalid : String → Invalid) (rs : List ResourceSpec)
    → is_empty (resource_errors compiles invalid rs) ≡ all (λ r. compiles r.name) rs
unfolding resource_errors all
is_empty-resource_errors compiles invalid [] = refl
is_empty-resource_errors compiles invalid (r ∷ rs) =
    ground (arith, is_empty-resource_errors compiles invalid rs)

pub is_some : Option Fault → Bool
is_some none = false
is_some (some fault) = true

module _ (ix : Indexer) (c : Cluster ix.Cache) where
  provider-errors :
      (w : c.World) (backup : Backup) (location : BackupLocation) (l : Lookup Provider)
      → c.get_provider location.provider_name w ≡ l
      → is_empty (backup_errors (fetch_provider ix c w backup location)) ≡ is_found l
  unfolding backup_errors fetch_provider and_then or_unavailable is_found
  provider-errors w backup location (found provider) e = rw e refl
  provider-errors w backup location (not_found x) e = rw e refl
  provider-errors w backup location (lookup_error x) e = rw e refl

  location-errors :
      (w : c.World) (backup : Backup) (l : Lookup BackupLocation)
      → c.get_location backup.spec.metadata_location w ≡ l
      → is_empty (backup_errors (fetch_location ix c w backup)) ≡ has_location ix c w l
  unfolding backup_errors fetch_location and_then or_unavailable has_location
  location-errors w backup (found location) e =
      rw e (provider-errors w backup location (c.get_provider location.provider_name w) refl)
  location-errors w backup (not_found x) e = rw e refl
  location-errors w backup (lookup_error x) e = rw e refl

  fetch-errors :
      (restore : Restore) (w : c.World) (l : Lookup Backup)
      → c.get_backup restore.spec.backup_name w ≡ l
      → is_empty (backup_errors (fetch_backup_info ix c restore w)) ≡ has_backup ix c w l
  unfolding backup_errors fetch_backup_info and_then or_unavailable has_backup
  fetch-errors restore w (found backup) e =
      rw e (location-errors w backup (c.get_location backup.spec.metadata_location w) refl)
  fetch-errors restore w (not_found x) e = rw e refl
  fetch-errors restore w (lookup_error x) e = rw e refl

  is_empty-backup_errors :
      (restore : Restore) (w : c.World)
      → is_empty (backup_errors (fetch_backup_info ix c restore w))
        ≡ has_backup ix c w (c.get_backup restore.spec.backup_name w)
  is_empty-backup_errors restore w =
      fetch-errors restore w (c.get_backup restore.spec.backup_name w) refl

  is_empty-validation_errors :
      (restore : Restore) (w : c.World)
      → is_empty (validation_errors ix c restore w) ≡ accepts ix c restore w
  unfolding validation_errors accepts
  is_empty-validation_errors restore w =
      simp (
        is_empty-append, is_empty-namespace_errors, is_empty-resource_errors,
        is_empty-backup_errors,
      )

  rejected-Adding : {P : Work → Type 0} (r : Returned) → Adding P (rejected ix c r)
  unfolding rejected
  rejected-Adding (restore, some fault) = Adding-pure _
  rejected-Adding (restore, none) = Adding-pure _

  reject-Adding :
      {P : Work → Type 0} (restore : Restore) (es : List Invalid)
      → ((errors : List String) → P (wrote_status (failed_with errors restore)))
      → Adding P (reject ix c restore es)
  unfolding reject
  reject-Adding restore [] p = Adding-pure _
  reject-Adding restore (e ∷ es) p =
      search (adding_rules, update_restore_status-Adding, rejected-Adding)

  pub validate_restore-Adding :
      {P : Work → Type 0} (restore : Restore)
      → ((errors : List String) → P (wrote_status (failed_with errors restore)))
      → Adding P (validate_restore ix c restore)
  unfolding validate_restore
  validate_restore-Adding restore p =
      Adding-bind (ask (validation_errors ix c restore)) (reject ix c restore) (Adding-ask _)
        (λ es. reject-Adding restore es p)

  rejected-is_some :
      (r : Returned) (s : Machine c.World ix.Cache)
      → (is_some (rejected ix c r s).0 ≡ true) × ((rejected ix c r s).1 ≡ s)
  unfolding rejected is_some
  rejected-is_some (restore, some fault) s = (refl, refl)
  rejected-is_some (restore, none) s = (refl, refl)

  reject_of_errors :
      (restore : Restore) (es : List Invalid) (s : Machine c.World ix.Cache)
      → (is_empty es ≡ true → reject ix c restore es s ≡ (none, s))
        × (is_empty es ≡ false
            → (is_some (reject ix c restore es s).0 ≡ true)
              × ((reject ix c restore es s).1.history
                  ≡ wrote_status (failed_with (map describe es) restore) ∷ s.history))
  unfolding reject
  reject_of_errors restore [] s = (λ h. refl, λ h. cc)
  reject_of_errors restore (e ∷ es) s =
      let failing = failed_with (map describe (e ∷ es)) restore in
      let (r, after) = update_restore_status c failing s in
      let (some_fault, same_state) = rejected-is_some r after in
      (
        λ h. cc,
        λ h. (
          some_fault,
          ap (λ t. t.history) same_state ∙ update_restore_status-history c failing s,
        ),
      )

-- `validateRestore` accepts a restore exactly when no namespace is both included and excluded, every
-- resource expression compiles, and the backup that it names, the backup's metadata location and that
-- location's provider are found.
-- It then changes nothing; otherwise it returns an error and sends the status once, with the state
-- `Failed` and what is wrong.
pub validate_restore-accepts :
    (ix : Indexer) (c : Cluster ix.Cache) (restore : Restore) (s : Machine c.World ix.Cache)
    → (accepts ix c restore s.world ≡ true → validate_restore ix c restore s ≡ (none, s))
      × (accepts ix c restore s.world ≡ false
          → (is_some (validate_restore ix c restore s).0 ≡ true)
            × ((validate_restore ix c restore s).1.history
                ≡ wrote_status
                    (failed_with (map describe (validation_errors ix c restore s.world)) restore)
                  ∷ s.history))
unfolding validate_restore
validate_restore-accepts ix c restore s =
    rw (← is_empty-validation_errors ix c restore s.world)
      (reject_of_errors ix c restore (validation_errors ix c restore s.world) s)
