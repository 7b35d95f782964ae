-- ===== src/Backup/Validate.antt =====
-- `validateBackup` of controllers/backup/backupcontroller.go.
pub mod Decides
use Prim.Native.String.{◌++◌ as append}
use kahu.Api.{Backup, BackupSpec, empty_status, ResourceSpec, failed}
use kahu.Backup.Cluster.{
  Cluster, Action, Lookup, BackupLocation, Provider, found, not_found, lookup_error, warning, ask,
  pure, ◌>>=◌,
}
use kahu.Backup.Updaters.{Returned, update_backup_status_with_event}
use kahu.Base.{
  join, sorted_set, String, Bool, true, false, not, Option, none, some, List, [], ◌∷◌, ◌++◌, map,
  ◌==◌, if◌then◌else◌, is_empty, keep, contains, Error, message, wrap,
}

-- One constructor for each message.
pub data Invalid : Type 0 where
  common_namespaces : List String → Invalid
  bad_include : String → Invalid
  bad_exclude : String → Invalid
  no_location : Invalid
  unknown_location : String → Invalid
  unknown_provider : String → String → Invalid

-- The message's text.
describe : Invalid → String
describe (common_namespaces names) =
    append "common namespace name (" (append (join names) ") in include and exclude namespace list")
describe (bad_include name) = append "invalid include resource expression (" (append name ")")
describe (bad_exclude name) = append "invalid exclude resource expression (" (append name ")")
describe no_location = "metadata location can not be empty"
describe (unknown_location name) = append "metadata location (" (append name ") not found")
describe (unknown_provider provider location) =
    append "invalid provider name ("
      (append provider (append ") configured for metadata location (" (append location ")")))

-- The intersection of the two sets.
namespace_errors : List String → List String → List Invalid
namespace_errors includes excludes =
    let common = sorted_set (keep (contains excludes) includes) in
    if is_empty common then [] else common_namespaces common ∷ []

-- The loop over a list of specifications; every name is compiled.
resource_errors : (String → Bool) → (String → Invalid) → List ResourceSpec → List Invalid
resource_errors compiles invalid [] = []
resource_errors compiles invalid (r ∷ rs) =
    let rest = resource_errors compiles invalid rs in
    if compiles r.name then rest else invalid r.name ∷ rest

provider_errors : String → String → Lookup Provider → List Invalid
provider_errors location provider (not_found e) = unknown_provider provider location ∷ []
provider_errors location provider _ = []

-- An error of the lister other than "not found" passes.
location_errors : (String → Lookup Provider) → String → Lookup BackupLocation → List Invalid
location_errors get_provider name (found location) =
    provider_errors name location.provider_name (get_provider location.provider_name)
location_errors get_provider name (not_found e) = unknown_location name ∷ []
location_errors get_provider name (lookup_error e) = []

failed_with : Returned → Bool × Option Error
failed_with (backup, some e) = (false, some (wrap e "backup validation failed"))
failed_with (backup, none) = (false, some (message "backup validation failed"))

module _ (c : Cluster) where
  open c use {World, compiles, get_location, get_provider}

  metadata_errors : String → World → List Invalid
  metadata_errors name w =
      if name == ""
      then no_location ∷ []
      else location_errors (λ p. get_provider p w) name (get_location name w)

  pub validation_errors : BackupSpec → World → List Invalid
  validation_errors spec w =
      namespace_errors spec.include_namespaces spec.exclude_namespaces
      ++ (resource_errors compiles bad_include spec.include_resources
          ++ (resource_errors compiles bad_exclude spec.exclude_resources
              ++ metadata_errors spec.metadata_location w))

  reject : Backup → List Invalid → Action World (Bool × Option Error)
  reject backup [] = pure (true, none)
  reject backup (e ∷ es) = do
    let status = record empty_status { state = failed; validation_errors = map describe (e ∷ es) }
    updated ← update_backup_status_with_event c backup status warning "Failed"
    pure (failed_with updated)

  pub validate_backup : Backup → Action World (Bool × Option Error)
  validate_backup backup = ask (validation_errors backup.spec) >>= reject backup
