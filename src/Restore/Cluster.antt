-- ===== src/Restore/Cluster.antt =====
-- What the restore controller calls and does not implement, and the state of one of its runs.
pub use kahu.Base.{Fault, raised, nil_pointer, stack_overflow, wrap_fault}
use kahu.Api.{Backup}
use kahu.Backup.Cluster.{Lookup, BackupLocation, Provider, Call}
use kahu.Utils.Store.{ThreadSafeStore}
use kahu.Utils.Store.Revision.{Meta}
use kahu.Restore.Objects.{
  Restore, RestoreSpec, RestoreResource, Claim, VolumeBackupContent, NewContent,
  VolumeRestoreContent,
}
use kahu.Restore.Filters.{Object}
use kahu.Base.{
  ℕ, String, Bool, Option, List, ◌∷◌, Error, Result, Dict, Fault, raised, nil_pointer,
  stack_overflow,
}

-- What a `Create` returns. `apierrors.IsAlreadyExists` tells the two errors apart.
pub data Creation : Type 0 where
  created : Creation
  already_exists : Error → Creation
  create_failed : Error → Creation

-- The fields of an `ObjectReference` that are read, of a `PersistentVolume`'s claim.
pub record ClaimRef : Type 0 where
  pub kind : String
  pub namespace : String
  pub name : String

-- The fields that are read of an object in the cluster.
pub record Existing : Type 0 where
  pub kind : String
  pub annotations : Dict String

-- What a stream of the metadata service brings up to its end, which is `io.EOF` or an error.
pub record Stream : Type 0 where
  pub messages : List String
  pub ending : Option Error

-- `metaservice.BackupIdentifier`
pub record BackupIdentifier : Type 0 where
  pub backup_handle : String
  pub parameters : Dict String

-- The Kubernetes API, the metadata service, and the parts of the controller that are not modelled.
pub record Cluster (Cache : Type 0) : Type 1 where
  pub World : Type 0
  pub Patch : Type 0
  pub Hooks : Type 0
  pub now : World → ℕ
  pub new_name : Call World String
  -- apimachinery and client-go
  pub object : Meta Restore
  pub compiles : String → Bool
  pub is_conflict : Error → Bool
  pub split_key : String → Result String
  pub unmarshal : String → Result Object
  pub unmarshal_parameters : String → Dict String
  pub to_volume : Object → Result (Option ClaimRef)
  pub to_claim : Object → Result Claim
  pub to_backup_content : Object → Result VolumeBackupContent
  pub to_storage_class : Object → Result (Unit {0})
  pub merge_patch : Restore → Restore → Result Patch
  pub send_patch : String → Patch → Call World (Restore × Option Error)
  pub send_status : Restore → Call World (Restore × Option Error)
  pub get_restore : String → World → Lookup Restore
  pub list_restores : World → Result (List Restore)
  pub get_backup : String → World → Lookup Backup
  pub get_location : String → World → Lookup BackupLocation
  pub get_provider : String → World → Lookup Provider
  pub get_claim : String → String → World → Lookup Claim
  pub get_namespace : String → World → Lookup (Unit {0})
  pub create_namespace : String → Call World (Option Error)
  -- volume restore contents
  pub list_contents : String → Call World (Result (List VolumeRestoreContent))
  pub create_content : NewContent → Call World (Option Error)
  pub delete_content : String → Call World (Option Error)
  pub annotate_content : VolumeRestoreContent → String → Call World (Option Error)
  -- the discovery helper, and the dynamic client for what it discovers
  pub discover : String → String → Result (Unit {0})
  pub get_object : Object → World → Lookup Existing
  pub create_object : Object → Call World Creation
  pub get_restored : RestoreResource → World → Lookup Existing
  pub delete_restored : RestoreResource → Call World (Option Error)
  -- the metadata service behind a provider's service name
  pub dial : String → Call World (Option Error)
  pub open_stream : String → BackupIdentifier → Call World (Option Error)
  pub receive : World → Stream
  pub close_stream : Call World (Option Error)
  -- mutators and hooks
  pub mutate : RestoreSpec → Cache → Cache × Option Error
  pub apply_workload : Object → Restore → Call World (Option Error)
  pub apply_pod : Object → Restore → Call World (Option Error)
  pub collect_hook_pods : Restore → Call World (Result Hooks)
  pub wait_hooks : Call World (List Error)
  pub run_hooks : Hooks → Call World (Option Error)

-- The work that a handler does outside, as kept in the history of a run.
pub data Work : Type 0 where
  wrote_status : Restore → Work
  wrote_metadata : Restore → Work
  made_namespace : String → Work
  made_content : NewContent → Work
  deleted_content : String → Work
  marked_content : String → Work
  applied : Object → Work
  deleted_resource : RestoreResource → Work
  ran_hooks : Work

-- The controller's cache of processed revisions, the two caches of the run's context, and the
-- history of the work done, newest first. The history is for the theorems: no code reads it.
pub record Machine (W Cache : Type 0) : Type 0 where
  pub world : W
  pub processed : ThreadSafeStore Restore
  pub backup_objects : Cache
  pub resolve_objects : Option Cache
  pub history : List Work

-- A handler's run: its result, and the state after it.
abbrev pub Action : {Cache : Type 0} → Cluster Cache → Type 0 → Type 0
Action {Cache} c A = Machine c.World Cache → A × Machine c.World Cache

module _ {W Cache : Type 0} where
  abbrev pub call : {A : Type 0} → Call W A → Machine W Cache → A × Machine W Cache
  call f s = let (a, w) = f s.world in (a, record s { world = w })

  abbrev pub ask : {A : Type 0} → (W → A) → Machine W Cache → A × Machine W Cache
  ask f s = (f s.world, s)

  abbrev pub log : Work → Machine W Cache → Unit {0} × Machine W Cache
  log w s = (tt, record s { history = w ∷ s.history })
