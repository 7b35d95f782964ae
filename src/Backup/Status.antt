-- ===== src/Backup/Status.antt =====
-- controllers/backup/updaters.go and constants.go: the status that an update leaves.
pub mod Merge
use kahu.Base.Integer.{ℤ, pos, negsuc, int_lt}
use kahu.Api.{
  BackupStage, no_stage, initial, pre_hook, volumes, post_hook, resources, finished, BackupState,
  no_state, BackupResource, BackupStatus, same_state,
}
use kahu.Base.{
  ℕ, Bool, true, false, not, ◌&&◌, ◌||◌, Option, none, some, List, ◌++◌, ◌==◌, if◌then◌else◌,
  is_empty, keep, any,
}

-- `toOrdinal`
unfoldable pub to_ordinal : BackupStage → ℤ
to_ordinal initial = pos 0
to_ordinal pre_hook = pos 1
to_ordinal volumes = pos 2
to_ordinal post_hook = pos 3
to_ordinal resources = pos 4
to_ordinal finished = pos 5
to_ordinal _ = negsuc 0

-- The clone's status, and whether it has to be written.
pub record Draft : Type 0 where
  pub status : BackupStatus
  pub dirty : Bool

has_stage : BackupStage → Bool
has_stage no_stage = false
has_stage _ = true

has_state : BackupState → Bool
has_state no_state = false
has_state _ = true

same_resource : BackupResource → BackupResource → Bool
same_resource a b = a.namespace == b.namespace && a.resource_name == b.resource_name

-- `mergeStatusResources`: what the status lacks is appended, in order.
pub merge_resources : List BackupResource → List BackupResource → List BackupResource
unfolding same_resource
merge_resources old new = old ++ keep (λ r. not (any (λ b. same_resource b r) old)) new

-- A time is written once.
first_time : Option ℕ → Option ℕ → Option ℕ
first_time none t = t
first_time (some t) _ = some t

sets_time : Option ℕ → Option ℕ → Bool
sets_time none (some _) = true
sets_time _ _ = false

-- The tests of `updateBackupStatus`, in their order. Each reads the status before the update.
draft_stage : BackupStatus → BackupStatus → Draft → Draft
unfolding has_stage
draft_stage old update d =
    if has_stage update.stage && int_lt (to_ordinal old.stage) (to_ordinal update.stage)
    then record { status = record d.status { stage = update.stage }; dirty = true }
    else d

draft_state : BackupStatus → BackupStatus → Draft → Draft
unfolding has_state
draft_state old update d =
    if has_state update.state && not (same_state old.state update.state)
    then record { status = record d.status { state = update.state }; dirty = true }
    else d

draft_errors : BackupStatus → Draft → Draft
draft_errors update d =
    if not (is_empty update.validation_errors)
    then record {
      status = record d.status { validation_errors = update.validation_errors };
      dirty = true;
    }
    else d

draft_times : BackupStatus → BackupStatus → Draft → Draft
unfolding first_time sets_time
draft_times old update d = record {
  status = record d.status {
    start_timestamp = first_time old.start_timestamp update.start_timestamp;
    completion_timestamp = first_time old.completion_timestamp update.completion_timestamp;
    last_backup = first_time old.last_backup update.last_backup;
  };
  dirty =
      d.dirty
      || sets_time old.start_timestamp update.start_timestamp
      || sets_time old.completion_timestamp update.completion_timestamp
      || sets_time old.last_backup update.last_backup;
}

draft_resources : BackupStatus → Draft → Draft
draft_resources update d =
    if not (is_empty update.resource_list)
    then record {
      status = record d.status {
        resource_list = merge_resources d.status.resource_list update.resource_list;
      };
      dirty = true;
    }
    else d

unfoldable pub draft_status : BackupStatus → BackupStatus → Draft
unfolding draft_stage draft_state draft_errors draft_times draft_resources
draft_status old update = draft_resources update (
    draft_times old update (
      draft_errors update
        (draft_state old update (draft_stage old update (record { status = old; dirty = false })))))
