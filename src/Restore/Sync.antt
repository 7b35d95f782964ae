-- ===== src/Restore/Sync.antt =====
-- `syncRestore` of controllers/restore/restorecontroller.go. Each stage of the `switch` is a
-- function that ends in a call of the next one, as `fallthrough` does.
mod Stages
pub mod Untimed
use Prim.Native.String.{◌++◌ as append}
use kahu.Api.{ObjectMeta}
use kahu.Utils.Metadata.{contains_finalizer, set_finalizer}
use kahu.Restore.Objects.{
  Restore, RestoreStage, RestoreState, no_stage, initial, resources, volumes, post_hook, finished,
  no_state, new, failed, completed, is_completed_state, is_failed_state, is_finished_stage,
}
use kahu.Restore.Filters.{Indexer}
use kahu.Restore.Cluster.{Cluster, Action, Fault, raised, nil_pointer, stack_overflow, ask}
use kahu.Restore.Updaters.{
  Returned, with_state, with_stage, update_restore_status, update_restore_state,
  update_restore_stage, patch_restore,
}
use kahu.Restore.Populate.{populate_restore_resources}
use kahu.Restore.Validate.{validate_restore}
use kahu.Restore.Volumes.{sync_volume_restore}
use kahu.Restore.Resources.{sync_metadata_restore}
use kahu.Base.{
  ℕ, String, Bool, not, ◌&&◌, ◌||◌, Option, none, some, if◌then◌else◌, text_of, ◌>>=◌, ◌>>◌, pure,
}

-- controllers/restore/constants.go
abbrev pub restore_finalizer : String
restore_finalizer = "kahu.io/restore-protection"

-- The object of a helper that changes metadata, which is not nil here.
abbrev pub with_meta : Restore → Option ObjectMeta → Restore
with_meta restore none = restore
with_meta restore (some meta) = record restore { object_meta = meta }

unfoldable pub restore_completed : Restore → Bool
restore_completed restore =
    is_finished_stage restore.status.stage && is_completed_state restore.status.state

restore_failed : Restore → Bool
restore_failed restore = is_failed_state restore.status.state

initial_stage : RestoreStage → RestoreStage
initial_stage no_stage = initial
initial_stage stage = stage

initial_state : RestoreState → RestoreState
initial_state no_state = new
initial_state s = s

start_time : Option ℕ → ℕ → Option ℕ
start_time none now = some now
start_time (some t) now = some t

-- The status that `initRestore` writes.
started : Restore → ℕ → Restore
started restore time =
    let status = record (restore.status) {
      start_timestamp = start_time restore.status.start_timestamp time;
      stage = initial_stage restore.status.stage;
      state = initial_state restore.status.state;
    } in
    record restore { status = status }

-- The status at the end of the `Finished` stage.
finished_at : Restore → ℕ → Restore
finished_at restore time =
    let status = record (restore.status) { state = completed; completion_timestamp = some time } in
    record restore { status = status }

module _ (ix : Indexer) (c : Cluster ix.Cache) (stack : ℕ) where
  open ix use {Cache}
  open c use {World, now}

  -- `if err != nil { return err }` after an update.
  pub continue_with : (Restore → Action c (Option Fault)) → Returned → Action c (Option Fault)
  continue_with next (restore, some fault) = pure (some fault)
  continue_with next (restore, none) = next restore

  -- `if restore.Status.State != Completed { return nil }` before the rest.
  if_completed : (Restore → Action c (Option Fault)) → Restore → Action c (Option Fault)
  if_completed next restore =
      if is_completed_state restore.status.state then next restore else pure none

  finish : Restore → Action c (Option Fault)
  finish restore = do
    time ← ask now
    updated ← update_restore_status c (finished_at restore time)
    pure updated.1

  sync_finished : Restore → Action c (Option Fault)
  sync_finished restore =
      if is_completed_state restore.status.state then pure none else finish restore

  hooks_done : Restore → Action c (Option Fault)
  hooks_done restore = update_restore_stage c restore finished >>= continue_with sync_finished

  sync_post_hook : Restore → Action c (Option Fault)
  sync_post_hook restore = if_completed hooks_done restore

  resources_of : Restore → Option Cache → Action c (Option Fault)
  resources_of restore none = pure (some nil_pointer)
  resources_of restore (some st) =
      sync_metadata_restore ix c restore st >>= continue_with (if_completed sync_post_hook)

  sync_resources : Restore → Action c (Option Fault)
  sync_resources restore s = resources_of restore s.resolve_objects s

  volumes_done : Restore → Action c (Option Fault)
  volumes_done restore =
      update_restore_stage c (with_state new restore) resources >>= continue_with sync_resources

  sync_volumes : Restore → Action c (Option Fault)
  sync_volumes restore s =
      (sync_volume_restore ix c restore s.resolve_objects
          >>= continue_with (if_completed volumes_done))
        s

  sync_stage : RestoreStage → Restore → Action c (Option Fault)
  sync_stage volumes restore = sync_volumes restore
  sync_stage resources restore = sync_resources restore
  sync_stage post_hook restore = sync_post_hook restore
  sync_stage finished restore = sync_finished restore
  sync_stage _ restore = pure none

  -- The reason of a failure is written over the one that the failed step wrote.
  not_populated : Restore → Fault → Action c (Option Fault)
  not_populated restore (raised e) = do
    let status = record (restore.status) {
      failure_reason = append "Failed to get restore content. " (text_of e);
    }
    updated ← update_restore_state c (record restore { status = status }) failed
    pure updated.1
  not_populated restore nil_pointer = pure (some nil_pointer)
  not_populated restore stack_overflow = pure (some stack_overflow)

  populated : Returned → Action c (Option Fault)
  populated (restore, some fault) = not_populated restore fault
  populated (restore, none) = sync_stage restore.status.stage restore

  pub sync_populated : Restore → Action c (Option Fault)
  sync_populated restore = populate_restore_resources ix c stack restore >>= populated

  restore_validated : Restore → Option Fault → Action c (Option Fault)
  restore_validated restore (some fault) = pure (some fault)
  restore_validated restore none =
      update_restore_status c (with_state new (with_stage volumes restore))
      >>= continue_with sync_populated

  validate_started : Restore → Action c (Option Fault)
  validate_started restore = validate_restore ix c restore >>= restore_validated restore

  sync_initial : Restore → Action c (Option Fault)
  sync_initial restore = do
    time ← ask now
    update_restore_status c (started restore time) >>= continue_with validate_started

  sync_from : RestoreStage → Restore → Action c (Option Fault)
  sync_from no_stage restore = sync_initial restore
  sync_from initial restore = sync_initial restore
  sync_from _ restore = sync_populated restore

  sync_protected : Restore → Action c (Option Fault)
  sync_protected restore = sync_from restore.status.stage restore

  protect : Restore → Action c (Option Fault)
  protect restore =
      if not (contains_finalizer (some restore.object_meta) restore_finalizer)
      then patch_restore c restore
          (with_meta restore (set_finalizer (some restore.object_meta) restore_finalizer))
        >>= continue_with sync_protected
      else sync_protected restore

  pub sync_restore : Restore → Action c (Option Fault)
  sync_restore restore =
      if restore_failed restore || restore_completed restore then pure none else protect restore
