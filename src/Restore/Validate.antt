-- ===== src/Restore/Validate.antt =====
-- `validateRestore` of controllers/restore/restorecontroller.go.
pub mod Decides
use Prim.Native.String.{◌++◌ as append}
use kahu.Api.{ResourceSpec}
use kahu.Restore.Objects.{Restore, failed}
use kahu.Restore.Filters.{Indexer}
use kahu.Restore.Cluster.{Cluster, Action, Fault, raised, ask}
use kahu.Restore.Updaters.{Returned, update_restore_status}
use kahu.Restore.Content.{BackupInfo, fetch_backup_info}
use kahu.Base.{
  join, sorted_set, String, Bool, Option, none, some, List, [], ◌∷◌, ◌++◌, map, if◌then◌else◌,
  is_empty, keep, contains, Error, message, text_of, Result, ok, err, ◌>>=◌, pure,
}

-- One constructor for each message.
pub data Invalid : Type 0 where
  common_namespaces : List String → Invalid
  bad_include : String → Invalid
  bad_exclude : String → Invalid
  no_backup : Error → Invalid

pub describe : Invalid → String
describe (common_namespaces names) =
    append "common namespace name (" (append (join names) ") in include and exclude namespace list")
describe (bad_include name) = append "invalid include resource specification name " name
describe (bad_exclude name) = append "invalid exclude resource specification name " name
describe (no_backup e) = append "backup information misconfigured. " (text_of e)

-- The intersection of the two sets.
namespace_errors : List String → List String → List Invalid
namespace_errors includes excludes =
    let common = sorted_set (keep (contains excludes) includes) in
    if is_empty common then [] else common_namespaces common ∷ []

resource_errors : (String → Bool) → (String → Invalid) → List ResourceSpec → List Invalid
resource_errors compiles invalid [] = []
resource_errors compiles invalid (r ∷ rs) =
    let rest = resource_errors compiles invalid rs in
    if compiles r.name then rest else invalid r.name ∷ rest

backup_errors : Result BackupInfo → List Invalid
backup_errors (ok info) = []
backup_errors (err e) = no_backup e ∷ []

abbrev pub failed_with : List String → Restore → Restore
failed_with errors restore =
    let status = record (restore.status) { validation_errors = errors; state = failed } in
    record restore { status = status }

module _ (ix : Indexer) (c : Cluster ix.Cache) where
  open c use {World, compiles}

  pub validation_errors : Restore → World → List Invalid
  validation_errors restore w =
      namespace_errors restore.spec.include_namespaces restore.spec.exclude_namespaces
      ++ (resource_errors compiles bad_include restore.spec.include_resources
          ++ (resource_errors compiles bad_exclude restore.spec.exclude_resources
              ++ backup_errors (fetch_backup_info ix c restore w)))

  rejected : Returned → Action c (Option Fault)
  rejected (restore, some fault) = pure (some fault)
  rejected (restore, none) = pure (some (raised (message "restore validation failed")))

  reject : Restore → List Invalid → Action c (Option Fault)
  reject restore [] = pure none
  reject restore (e ∷ es) =
      update_restore_status c (failed_with (map describe (e ∷ es)) restore) >>= rejected

  pub validate_restore : Restore → Action c (Option Fault)
  validate_restore restore = ask (validation_errors restore) >>= reject restore
