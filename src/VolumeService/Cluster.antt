-- ===== src/VolumeService/Cluster.antt =====
-- The contents that the volume backup service works on, what it calls and does not implement, and
-- the state that it runs on.
use kahu.Api.{ObjectMeta}
use kahu.Utils.Store.{ThreadSafeStore}
use kahu.Utils.Store.Revision.{Meta}
use kahu.Backup.Cluster.{Lookup, Call, EventType, Event}
use kahu.Operation.{Manager}
use kahu.Base.Integer.{ℤ}
use kahu.Base.{ℕ, String, Bool, Option, List, ◌∷◌, Error, Result, Dict, Fault}

-- A typed string: the empty one is `no_phase`, and one that no constant names is `other_phase`.
pub data Phase : Type 0 where
  no_phase init_phase in_progress completed failed deleting_phase : Phase
  other_phase : String → Phase

-- The times are seconds of the Unix epoch.
pub record VolumeBackupState : Type 0 where
  pub volume_name : String
  pub backup_handle : String
  pub backup_attributes : Dict String
  pub progress : ℤ
  pub last_progress_update : ℕ

pub record VolumeBackupContentStatus : Type 0 where
  pub phase : Phase
  pub volume_backup_provider : Option String
  pub start_timestamp : Option ℕ
  pub failure_reason : String
  pub backup_states : List VolumeBackupState

-- A `PersistentVolume`, with the fields that are read or written.
pub record Volume : Type 0 where
  pub name : String
  pub api_version : String
  pub kind : String

pub record OwnerReference : Type 0 where
  pub kind : String
  pub name : String
  pub uid : String

-- `backup_source_ref` is the name of the volume snapshot that the content refers to.
pub record VolumeBackupContentSpec : Type 0 where
  pub volumes : List Volume
  pub parameters : Dict String
  pub backup_source_ref : Option String

pub record VolumeBackupContent : Type 0 where
  pub name : String
  pub object_meta : ObjectMeta
  pub owners : List OwnerReference
  pub deleted : Bool
  pub spec : VolumeBackupContentSpec
  pub status : VolumeBackupContentStatus

-- The messages of the driver.
pub record BackupIdentity : Type 0 where
  pub backup_handle : String
  pub backup_attributes : Dict String

pub record BackupIdentifier : Type 0 where
  pub pv_name : String
  pub identity : BackupIdentity

pub record BackupStat : Type 0 where
  pub backup_handle : String
  pub progress : ℤ

pub record StartBackupRequest : Type 0 where
  pub backup_content_name : String
  pub pv : List Volume
  pub backup_info : List (String × Volume)
  pub parameters : Dict String

-- A nil response reads as one without errors and identifiers.
pub record StartBackupResponse : Type 0 where
  pub errors : List String
  pub backup_info : List BackupIdentifier

-- A `VolumeSnapshotState`: the namespaces and names of its CSI snapshot and of its claim.
pub record SnapshotState : Type 0 where
  pub csi_snapshot_ref : Option (String × String)
  pub pvc_namespace : String
  pub pvc_name : String

-- The owner's fields that are read.
pub record OwnerBackup : Type 0 where
  pub uid : String
  pub deleted : Bool

-- A value, or what ended the call early.
pub data Attempt (A : Type 0) : Type 0 where
  made : A → Attempt A
  ended : Fault → Attempt A

-- The Kubernetes API, the listers and the provider's driver. `csi_content` gives the name of the
-- content that a CSI snapshot is bound to, and nothing where a pointer to it is nil. `sorted` is the
-- `List` of a `sets.String`, and `join` is `strings.Join`.
pub record Cluster : Type 1 where
  pub World : Type 0
  pub Patch : Type 0
  pub now : World → ℕ
  pub object : Meta VolumeBackupContent
  pub is_not_found : Error → Bool
  pub is_unavailable : Error → Bool
  pub sorted : List String → List String
  pub join : List String → String → String
  pub split_key : String → Result String
  pub get_content : String → World → Lookup VolumeBackupContent
  pub get_owner : String → World → Lookup OwnerBackup
  pub get_snapshot : String → World → Result (List SnapshotState)
  pub csi_content : String → String → World → Result (Option String)
  pub csi_content_name : String → World → Result String
  pub claimed_volume : String → String → World → Result String
  pub get_volume : String → World → Lookup Volume
  pub merge_patch : VolumeBackupContent → VolumeBackupContent → Result Patch
  pub send_patch : String → Patch → Call World (Result VolumeBackupContent)
  pub send_status_patch : String → Patch → Call World (Result VolumeBackupContent)
  pub start_backup : StartBackupRequest → Call World (Result StartBackupResponse)
  pub cancel_backup : List BackupIdentity → Dict String → Call World (Option Error)
  pub delete_backup : String → List BackupIdentity → Dict String → Call World (Option Error)
  pub get_backup_stat : List BackupIdentity → Dict String → Call World (Result (List BackupStat))

-- The work done outside, as kept in the history of a run.
pub data Work : Type 0 where
  wrote_status : VolumeBackupContent → Work
  wrote_metadata : VolumeBackupContent → Work
  started_backup : StartBackupRequest → Work
  cancelled_backup : String → Work
  deleted_backup : String → Work

-- The history is the newest first. It is for the theorems: no code reads it.
pub record Machine (W : Type 0) : Type 0 where
  pub world : W
  pub cache : ThreadSafeStore VolumeBackupContent
  pub operations : Manager
  pub events : List Event
  pub history : List Work

abbrev pub Action : Type 0 → Type 0 → Type 0
Action W A = Machine W → A × Machine W

module _ {W : Type 0} where
  abbrev pub call : {A : Type 0} → Call W A → Action W A
  call f s = let (a, w) = f s.world in (a, record s { world = w })

  abbrev pub ask : {A : Type 0} → (W → A) → Action W A
  ask f s = (f s.world, s)

  abbrev pub log : Work → Action W (Unit {0})
  log w s = (tt, record s { history = w ∷ s.history })

  abbrev pub record_event : EventType → String → Action W (Unit {0})
  record_event event_type reason s =
      (tt, record s { events = record { event_type = event_type; reason = reason } ∷ s.events })
