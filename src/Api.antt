-- ===== src/Api.antt =====
-- apis/kahu/v1beta1: the objects that the controllers read and write, with the fields that the
-- modelled code uses. A pointer to a time is an option of its seconds.
use kahu.Base.{
  ℕ, String, ◌≡◌, ◌↔◌, Bool, true, false, ◌&&◌, Option, none, List, [], arith, eq_iff, ◌==◌, leb,
  Dict,
}

-- The finalizers and annotations of a `metav1.Object`. A nil annotation map is the empty one: the
-- code makes a map before it writes, and reads and deletes are the same on both.
pub record ObjectMeta : Type 0 where
  pub finalizers : List String
  pub annotations : Dict String

pub record ResourceSpec : Type 0 where
  pub name : String
  pub kind : String
  pub is_regex : Bool

-- A typed string: the empty one is `no_stage`, and one that no constant names is `other_stage`.
pub data BackupStage : Type 0 where
  no_stage initial pre_hook volumes post_hook resources finished : BackupStage
  other_stage : String → BackupStage

pub data BackupState : Type 0 where
  no_state new validating failed processing completed deleting : BackupState
  other_state : String → BackupState

pub record BackupResource : Type 0 where
  pub api_version : String
  pub kind : String
  pub resource_name : String
  pub namespace : String
  pub resource_status : String

pub record BackupStatus : Type 0 where
  pub stage : BackupStage
  pub state : BackupState
  pub last_backup : Option ℕ
  pub validation_errors : List String
  pub resource_list : List BackupResource
  pub start_timestamp : Option ℕ
  pub completion_timestamp : Option ℕ

-- `hook` is the hook specification, which the controller hands on unread, and `label` the text of the
-- label selector, if there is one.
pub record BackupSpec : Type 0 where
  pub metadata_location : String
  pub include_namespaces : List String
  pub exclude_namespaces : List String
  pub include_resources : List ResourceSpec
  pub exclude_resources : List ResourceSpec
  pub hook : String
  pub label : Option String

-- `deleted` says that the deletion timestamp is set.
pub record Backup : Type 0 where
  pub name : String
  pub resource_version : String
  pub object_meta : ObjectMeta
  pub deleted : Bool
  pub spec : BackupSpec
  pub status : BackupStatus

-- The zero values of Go.
abbrev pub empty_status : BackupStatus
empty_status = record {
  stage = no_stage;
  state = no_state;
  last_backup = none;
  validation_errors = [];
  resource_list = [];
  start_timestamp = none;
  completion_timestamp = none;
}

abbrev pub empty_spec : BackupSpec
empty_spec = record {
  metadata_location = "";
  include_namespaces = [];
  exclude_namespaces = [];
  include_resources = [];
  exclude_resources = [];
  hook = "";
  label = none;
}

abbrev pub empty_backup : Backup
empty_backup = record {
  name = "";
  resource_version = "";
  object_meta = record { finalizers = []; annotations = [] };
  deleted = false;
  spec = empty_spec;
  status = empty_status;
}

-- The number of a named state, and the Go test `a == b` on states.
abbrev state_number : BackupState → ℕ
state_number no_state = 0
state_number new = 1
state_number validating = 2
state_number failed = 3
state_number processing = 4
state_number completed = 5
state_number deleting = 6
state_number (other_state s) = 7

unfoldable pub same_state : BackupState → BackupState → Bool
same_state (other_state s) (other_state t) = s == t
same_state a b = leb (state_number a) (state_number b) && leb (state_number b) (state_number a)

pub same_state_iff : (a b : BackupState) → (same_state a b ≡ true) ↔ (a ≡ b)
unfolding same_state
same_state_iff (other_state s) (other_state t) = ground (arith, eq_iff s t)
same_state_iff a b = ground arith
