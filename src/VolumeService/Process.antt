-- ===== src/VolumeService/Process.antt =====
-- `processQueue` of backupvolume.go.
pub mod Assigned
mod Examples
use Prim.Native.String.{◌++◌ as append}
use kahu.Utils.Metadata.{contains_finalizer, set_finalizer}
use kahu.Utils.Store.Revision.{store_revision_update}
use kahu.Backup.Cluster.{Lookup, found, not_found, lookup_error}
use kahu.VolumeService.Cluster.{
  Cluster, Action, VolumeBackupContent, Phase, no_phase, init_phase, ask,
}
use kahu.VolumeService.Updaters.{
  Patched, patch_failed, uncached, patched, with_status, get_volume_backup, patch_backup,
  patch_backup_status,
}
use kahu.VolumeService.Delete.{volume_backup_finalizer, with_meta, process_delete_volume_backup}
use kahu.VolumeService.Start.{process_volume_backup}
use kahu.Base.{
  ℕ, String, Bool, true, false, not, ◌||◌, Option, none, some, ◌==◌, if◌then◌else◌, Error, message,
  Result, ok, err, Fault, raised, ◌>>=◌, pure,
}

is_new_phase : Phase → Bool
is_new_phase no_phase = true
is_new_phase _ = false

initial_phase : Phase → Phase
initial_phase no_phase = init_phase
initial_phase phase = phase

start_time : ℕ → Option ℕ → Option ℕ
start_time time none = some time
start_time time (some start) = some start

is_unset : Option ℕ → Bool
is_unset none = true
is_unset (some _) = false

module _ (c : Cluster) (provider_name : String) where
  open c use {World, now, object}

  -- A content that an update returned, or its error.
  updated :
      (VolumeBackupContent → Action World (Option Fault)) → Patched → Action World (Option Fault)
  updated next (patch_failed e) = pure (some (raised e))
  updated next (uncached content e) = pure (some (raised e))
  updated next (patched content) = next content

  -- The content with what `ensureVolBackupInit` sets in its clone.
  init_at : VolumeBackupContent → ℕ → VolumeBackupContent
  init_at content time =
      let status = content.status in
      with_status content (record status {
        phase = initial_phase status.phase;
        start_timestamp = start_time time status.start_timestamp;
      })

  patch_init : VolumeBackupContent → Action World Patched
  patch_init content = ask now >>= λ time. patch_backup_status c content (init_at content time)

  pub ensure_vol_backup_init : VolumeBackupContent → Action World Patched
  ensure_vol_backup_init content =
      if is_new_phase content.status.phase || is_unset content.status.start_timestamp
      then patch_init content
      else pure (patched content)

  pub ensure_finalizer : VolumeBackupContent → Action World Patched
  ensure_finalizer content =
      let meta = some content.object_meta in
      if not (contains_finalizer meta volume_backup_finalizer)
      then patch_backup c content (with_meta content (set_finalizer meta volume_backup_finalizer))
      else pure (patched content)

  -- `checkVolumeBackupDriver`, and the tests of its results.
  process_assigned : VolumeBackupContent → Option String → Action World (Option Fault)
  process_assigned content none = pure none
  process_assigned content (some driver) =
      if not (driver == provider_name) then pure none else process_volume_backup c content

  process_protected : VolumeBackupContent → Action World (Option Fault)
  process_protected content = process_assigned content content.status.volume_backup_provider

  process_initialized : VolumeBackupContent → Action World (Option Fault)
  process_initialized content = ensure_finalizer content >>= updated process_protected

  deleted_with : Option Error → Action World (Option Fault)
  deleted_with none = pure none
  deleted_with (some e) = pure (some (raised e))

  process_content : VolumeBackupContent → Action World (Option Fault)
  process_content content =
      if content.deleted
      then process_delete_volume_backup c content >>= deleted_with
      else ensure_vol_backup_init content >>= updated process_initialized

  -- An error of `StoreRevisionUpdate` comes without a new object.
  process_if_new : VolumeBackupContent → Result Bool → Action World (Option Fault)
  process_if_new content (err e) = pure none
  process_if_new content (ok false) = pure none
  process_if_new content (ok true) = process_content content

  revise : VolumeBackupContent → Action World (Result Bool)
  revise content s =
      let (cache, result) = store_revision_update object s.cache content in
      (result, record s { cache = cache })

  process_found : String → Lookup VolumeBackupContent → Action World (Option Fault)
  process_found index (not_found e) = pure none
  process_found index (lookup_error e) = pure (
      some (
        raised (
          message (append "error getting volume backup content " (append index " from informer")))))
  process_found index (found content) = revise content >>= process_if_new content

  pub process_queue : String → Action World (Option Fault)
  process_queue index = ask (get_volume_backup c index) >>= process_found index
