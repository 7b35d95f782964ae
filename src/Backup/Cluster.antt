-- ===== src/Backup/Cluster.antt =====
-- What the backup controller calls and does not implement, and the state that it runs on.
pub use kahu.Base.{◌>>=◌, ◌>>◌, pure}
use kahu.Api.{Backup, BackupSpec}
use kahu.Utils.Store.{ThreadSafeStore}
use kahu.Utils.Store.Revision.{Meta}
use kahu.Base.{ℕ, String, Bool, Option, List, ◌∷◌, Error, Result, Dict, ◌>>=◌, ◌>>◌, pure}

pub data HookPhase : Type 0 where
  pre_phase post_phase : HookPhase

-- A lister's answer. `apierrors.IsNotFound` tells the two errors apart.
pub data Lookup (A : Type 0) : Type 0 where
  found : A → Lookup A
  not_found : Error → Lookup A
  lookup_error : Error → Lookup A

-- The fields of a `BackupLocation`, a `Provider` and a `VolumeBackupContent` that are read.
pub record BackupLocation : Type 0 where
  pub provider_name : String
  pub config : Dict String

pub record Provider : Type 0 where
  pub metadata_type : Bool
  pub annotations : Dict String
  pub manifest : Dict String

pub data ContentPhase : Type 0 where
  new in_progress completed failed deleting_phase : ContentPhase
  other_phase : String → ContentPhase

pub record ContentRef : Type 0 where
  pub name : String
  pub deleting : Bool
  pub phase : ContentPhase

-- An outside call with its effect on the outside world.
abbrev pub Call : Type 0 → Type 0 → Type 0
Call W A = W → A × W

-- The Kubernetes API, the hook executor, the volume handler and the metadata service.
pub record Cluster : Type 1 where
  pub World : Type 0
  pub Patch : Type 0
  pub Object : Type 0
  pub Claim : Type 0
  pub Group : Type 0
  pub Snapshotter : Type 0
  pub Backupper : Type 0
  pub now : World → ℕ
  -- apimachinery and client-go
  pub object : Meta Backup
  pub compiles : String → Bool
  pub split_key : String → Result String
  pub merge_patch : Backup → Backup → Result Patch
  pub send_patch : String → Patch → Call World (Backup × Option Error)
  pub send_status : Backup → Call World (Backup × Option Error)
  pub get_backup : String → World → Lookup Backup
  pub list_backups : World → Result (List Backup)
  pub get_location : String → World → Lookup BackupLocation
  pub get_provider : String → World → Lookup Provider
  pub list_contents : String → Call World (Result (List ContentRef))
  pub delete_content : String → Call World (Option Error)
  -- hooks, backup resources and volumes
  pub execute_hook : BackupSpec → HookPhase → Call World (Option Error)
  pub sync_resources : Backup → Call World (Backup × Option Error)
  pub claims_of : Backup → World → List Object
  pub to_claim : Object → Result Claim
  pub group_by_claims : String → List Claim → Call World (Result Group)
  pub snapshot_by_group : Group → Call World (Result Snapshotter)
  pub apply_snapshot : Snapshotter → Call World (Option Error)
  pub wait_snapshot : Snapshotter → String → Call World (Option Error)
  pub backup_by_snapshot : Snapshotter → Call World (Result Backupper)
  pub apply_backup : Backupper → String → Call World (Option Error)
  -- the metadata service behind a provider's service name
  pub dial : String → Call World (Option Error)
  pub open_stream : String → Call World (Option Error)
  pub run_backup : Backup → Call World (Option Error)
  pub close_stream : Call World (Option Error)
  pub delete_metadata : String → Call World (Option Error)

-- The work that a handler does outside, as kept in the history of a run.
pub data Work : Type 0 where
  ran_hook : HookPhase → Option Error → Work
  backed_up_volumes : Work
  backed_up_resources : Work
  wrote_status : Backup → Work
  wrote_metadata : Backup → Work
  deleted_content : String → Work
  deleted_metadata : String → Work

pub data EventType : Type 0 where
  normal warning : EventType

-- An event of the recorder, without its message.
pub record Event : Type 0 where
  pub event_type : EventType
  pub reason : String

-- The controller's state: the outside, the cache of processed revisions, the events, and the
-- history of the work done, newest first. The history is for the theorems: no code reads it.
pub record Machine (W : Type 0) : Type 0 where
  pub world : W
  pub cache : ThreadSafeStore Backup
  pub events : List Event
  pub history : List Work

-- A handler's run: its result, and the state after it.
abbrev pub Action : Type 0 → Type 0 → Type 0
Action W A = Machine W → A × Machine W

module _ {W : Type 0} where
  abbrev pub call : {A : Type 0} → Call W A → Action W A
  call f s = let (a, w) = f s.world in (a, record s { world = w })

  abbrev pub ask : {A : Type 0} → (W → A) → Action W A
  ask f s = (f s.world, s)

  abbrev pub log : Work → Action W (Unit {0})
  log w s = (tt, record s { history = w ∷ s.history })

  abbrev pub record_event : EventType → String → Action W (Unit {0})
  record_event event_type reason s =
      (tt, record s { events = record { event_type = event_type; reason = reason } ∷ s.events })
