-- ===== src/Restore/Objects.antt =====
-- apis/kahu/v1beta1/restore.go and volumerestorecontent.go: the objects of the restore controller,
-- with the fields that the modelled code uses.
use kahu.Api.{ObjectMeta, ResourceSpec}
use kahu.Base.{ℕ, String, Bool, Option, none, List, [], Dict}

-- The selector and the hooks are handed on unread, and kept as texts.
pub record RestoreSpec : Type 0 where
  pub backup_name : String
  pub include_namespaces : List String
  pub exclude_namespaces : List String
  pub include_resources : List ResourceSpec
  pub exclude_resources : List ResourceSpec
  pub label_selector : Option String
  pub namespace_mapping : Dict String
  pub resource_prefix : String
  pub hooks : String

-- A typed string, as `BackupStage` is one.
pub data RestoreStage : Type 0 where
  no_stage initial pre_hook resources volumes post_hook finished : RestoreStage
  other_stage : String → RestoreStage

pub data RestoreState : Type 0 where
  no_state new validating failed processing completed deleting : RestoreState
  other_state : String → RestoreState

pub record RestoreResource : Type 0 where
  pub api_version : String
  pub kind : String
  pub resource_name : String
  pub namespace : String

pub record RestoreStatus : Type 0 where
  pub stage : RestoreStage
  pub state : RestoreState
  pub resources : List RestoreResource
  pub start_timestamp : Option ℕ
  pub completion_timestamp : Option ℕ
  pub failure_reason : String
  pub validation_errors : List String

-- `deleted` says that the deletion timestamp is set.
pub record Restore : Type 0 where
  pub name : String
  pub resource_version : String
  pub object_meta : ObjectMeta
  pub deleted : Bool
  pub spec : RestoreSpec
  pub status : RestoreStatus

abbrev pub empty_restore_status : RestoreStatus
empty_restore_status = record {
  stage = no_stage;
  state = no_state;
  resources = [];
  start_timestamp = none;
  completion_timestamp = none;
  failure_reason = "";
  validation_errors = [];
}

-- The fields of a `PersistentVolumeClaim` that are read.
pub record Claim : Type 0 where
  pub namespace : String
  pub name : String
  pub volume_name : String
  pub storage_class_name : Option String

-- An entry of a `VolumeBackupContent`'s backup state, and the content.
pub record VolumeBackupState : Type 0 where
  pub volume_name : String
  pub backup_handle : String
  pub backup_attributes : Dict String

pub record VolumeBackupContent : Type 0 where
  pub annotations : Dict String
  pub backup_name : String
  pub volume_provider : Option String
  pub backup_state : List VolumeBackupState

pub record RestoreVolumeSpec : Type 0 where
  pub backup_handle : String
  pub backup_attributes : Dict String
  pub claim : Claim

-- A `VolumeRestoreContent` as it is made: its label is the restore's name, and its phase is new.
pub record NewContent : Type 0 where
  pub name : String
  pub label : String
  pub backup_name : String
  pub restore_name : String
  pub volumes : List RestoreVolumeSpec
  pub volume_provider : Option String
  pub parameters : Dict String
  pub start_timestamp : ℕ

-- A `VolumeRestoreContent` as the API lists it, with the progress of each volume.
pub data RestorePhase : Type 0 where
  phase_new phase_in_progress phase_completed phase_failed phase_deleting : RestorePhase
  other_phase : String → RestorePhase

pub record VolumeRestoreContent : Type 0 where
  pub name : String
  pub annotations : Dict String
  pub deleting : Bool
  pub phase : RestorePhase
  pub progress : List ℕ

-- The Go tests `stage == constant` and `state == constant`, for the constants that the code names.
unfoldable pub is_completed_state : RestoreState → Bool
is_completed_state completed = Bool.true
is_completed_state _ = Bool.false

pub is_failed_state : RestoreState → Bool
is_failed_state failed = Bool.true
is_failed_state _ = Bool.false

unfoldable pub is_processing_state : RestoreState → Bool
is_processing_state processing = Bool.true
is_processing_state _ = Bool.false

unfoldable pub is_finished_stage : RestoreStage → Bool
is_finished_stage finished = Bool.true
is_finished_stage _ = Bool.false

unfoldable pub is_volumes_stage : RestoreStage → Bool
is_volumes_stage volumes = Bool.true
is_volumes_stage _ = Bool.false
