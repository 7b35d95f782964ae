-- ===== src/VolumeService/Process/Assigned.antt =====
-- Whose backups a provider's service starts.
use kahu.Utils.Metadata.{contains_finalizer}
use kahu.Backup.Cluster.{Lookup, found, not_found, lookup_error}
use kahu.VolumeService.Cluster.{Cluster, Machine, VolumeBackupContent, Work, started_backup}
use kahu.VolumeService.Updaters.{Patched, patch_failed, uncached, patched, get_volume_backup}
use kahu.VolumeService.Updaters.History.{picked, patch_backup-picked, patch_backup_status-picked}
use kahu.VolumeService.Delete.{process_delete_volume_backup, volume_backup_finalizer}
use kahu.VolumeService.Delete.History.{IsOther, process_delete_volume_backup-picked}
use kahu.VolumeService.Process.{
  ensure_vol_backup_init, patch_init, is_new_phase, is_unset, ensure_finalizer, updated,
  process_assigned, process_protected, process_initialized, deleted_with, process_content,
  process_if_new, process_found, process_queue, revise,
}
use kahu.Base.{
  String, ◌≡◌, refl, ap, ◌∙◌, ◌⊎◌, inl, inr, Bool, true, false, ◌||◌, Option, none, some, eq_iff,
  ◌==◌, if◌then◌else◌, Bool-cases, Error, Result, ok, err, ◌>>=◌,
}

pub is_start : Work → Bool
is_start (started_backup request) = true
is_start _ = false

-- The content of a key, as it is after the updates that come first, is assigned to a provider and is
-- not being deleted.
pub record IsAssigned (c : Cluster) (provider_name index : String) (w : c.World) : Type 0 where
  pub content : VolumeBackupContent
  pub is_found : get_volume_backup c index w ≡ found content
  pub is_live : content.deleted ≡ false
  pub started : VolumeBackupContent
  pub before : Machine c.World
  pub is_initialized : (ensure_vol_backup_init c provider_name content before).0 ≡ patched started
  pub protected : VolumeBackupContent
  pub between : Machine c.World
  pub is_protected : (ensure_finalizer c provider_name started between).0 ≡ patched protected
  pub is_assigned : protected.status.volume_backup_provider ≡ some provider_name

module _ (c : Cluster) (provider_name : String) where
  starts_apart : IsOther c is_start
  unfolding is_start
  starts_apart = record {
    no_status = λ content. refl;
    no_metadata = λ content. refl;
    no_cancel = λ name. refl;
    no_delete = λ name. refl;
  }

  init-picked :
      (content : VolumeBackupContent) (s : Machine c.World)
      → picked is_start (ensure_vol_backup_init c provider_name content s).1 ≡ picked is_start s
  unfolding ensure_vol_backup_init patch_init
  init-picked content s =
      elim (Bool-cases
        (is_new_phase content.status.phase || is_unset content.status.start_timestamp)) [
          | inl t ↦
              rw t (patch_backup_status-picked c is_start content _ s (starts_apart.no_status _))
          | inr f ↦ rw f refl
        ]

  finalizer-picked :
      (content : VolumeBackupContent) (s : Machine c.World)
      → picked is_start (ensure_finalizer c provider_name content s).1 ≡ picked is_start s
  unfolding ensure_finalizer
  finalizer-picked content s =
      elim (Bool-cases (contains_finalizer (some content.object_meta) volume_backup_finalizer)) [
        | inl t ↦ rw t refl
        | inr f ↦ rw f (patch_backup-picked c is_start content _ s (starts_apart.no_metadata _))
      ]

  assigned_step :
      (content : VolumeBackupContent) (driver : Option String) (s : Machine c.World)
      → (picked is_start (process_assigned c provider_name content driver s).1 ≡ picked is_start s)
        ⊎ (driver ≡ some provider_name)
  unfolding process_assigned
  assigned_step content none s = inl refl
  assigned_step content (some driver) s = elim (Bool-cases (driver == provider_name)) [
    | inl t ↦ inr (ap some ((eq_iff driver provider_name).0 t))
    | inr f ↦ inl (rw f refl)
  ]

  protected_step :
      (p : Patched) (s : Machine c.World)
      → (picked is_start (updated c provider_name (process_protected c provider_name) p s).1
          ≡ picked is_start s)
        ⊎ ((protected : VolumeBackupContent) × (p ≡ patched protected)
            × (protected.status.volume_backup_provider ≡ some provider_name))
  unfolding updated process_protected
  protected_step (patch_failed e) s = inl refl
  protected_step (uncached content e) s = inl refl
  protected_step (patched content) s =
      elim (assigned_step content content.status.volume_backup_provider s) [
        | inl same ↦ inl same
        | inr e ↦ inr (content, refl, e)
      ]

  -- What a content that is assigned went through.
  abbrev Passed : VolumeBackupContent → Type 0
  Passed started =
      (between : Machine c.World) × (protected : VolumeBackupContent) × ((ensure_finalizer c
          provider_name started between).0
        ≡ patched protected)
      × (protected.status.volume_backup_provider ≡ some provider_name)

  initialized_step :
      (p : Patched) (s : Machine c.World)
      → (picked is_start (updated c provider_name (process_initialized c provider_name) p s).1
          ≡ picked is_start s)
        ⊎ ((started : VolumeBackupContent) × (p ≡ patched started) × Passed started)
  unfolding updated process_initialized
  initialized_step (patch_failed e) s = inl refl
  initialized_step (uncached content e) s = inl refl
  initialized_step (patched started) s = elim (protected_step _ _) [
    | inl same ↦ inl (same ∙ finalizer-picked started s)
    | inr (protected, e, assigned) ↦ inr (started, refl, (s, protected, e, assigned))
  ]

  deleted_step :
      (e : Option Error) (s : Machine c.World)
      → picked is_start (deleted_with c provider_name e s).1 ≡ picked is_start s
  unfolding deleted_with
  deleted_step none s = refl
  deleted_step (some e) s = refl

  module _ (index : String) (w : c.World) where
    live_step :
        (content : VolumeBackupContent) (deleted : Bool) (s : Machine c.World)
        → get_volume_backup c index w ≡ found content
        → content.deleted ≡ deleted
        → (picked is_start
              ((if deleted
                  then process_delete_volume_backup c content >>= deleted_with c provider_name
                  else ensure_vol_backup_init c provider_name content
                    >>= updated c provider_name (process_initialized c provider_name))
                s).1
            ≡ picked is_start s)
          ⊎ IsAssigned c provider_name index w
    live_step content true s known e =
        inl
          (deleted_step _ _ ∙ process_delete_volume_backup-picked c is_start content s starts_apart)
    live_step content false s known live =
        elim (initialized_step (ensure_vol_backup_init c provider_name content s).0 _) [
          | inl same ↦ inl (same ∙ init-picked content s)
          | inr (started, e, (between, protected, e', assigned)) ↦ inr (record {
            content = content;
            is_found = known;
            is_live = live;
            started = started;
            before = s;
            is_initialized = e;
            protected = protected;
            between = between;
            is_protected = e';
            is_assigned = assigned;
          })
        ]

    content_step :
        (content : VolumeBackupContent) (s : Machine c.World)
        → get_volume_backup c index w ≡ found content
        → (picked is_start (process_content c provider_name content s).1 ≡ picked is_start s)
          ⊎ IsAssigned c provider_name index w
    unfolding process_content
    content_step content s known = live_step content content.deleted s known refl

    new_step :
        (content : VolumeBackupContent) (r : Result Bool) (s : Machine c.World)
        → get_volume_backup c index w ≡ found content
        → (picked is_start (process_if_new c provider_name content r s).1 ≡ picked is_start s)
          ⊎ IsAssigned c provider_name index w
    unfolding process_if_new
    new_step content (err e) s known = inl refl
    new_step content (ok false) s known = inl refl
    new_step content (ok true) s known = content_step content s known

    found_step :
        (l : Lookup VolumeBackupContent) (s : Machine c.World)
        → get_volume_backup c index w ≡ l
        → (picked is_start (process_found c provider_name index l s).1 ≡ picked is_start s)
          ⊎ IsAssigned c provider_name index w
    unfolding process_found revise
    found_step (not_found e) s known = inl refl
    found_step (lookup_error e) s known = inl refl
    found_step (found content) s known = new_step content _ _ known

  -- A provider's service starts a backup only for a content that is there, is not being deleted, and
  -- is assigned to that provider after the updates of its status and finalizer, which succeeded.
  pub process_queue-IsAssigned :
      (index : String) (s : Machine c.World)
      → (picked is_start (process_queue c provider_name index s).1 ≡ picked is_start s)
        ⊎ IsAssigned c provider_name index s.world
  unfolding process_queue
  process_queue-IsAssigned index s =
      found_step index s.world (get_volume_backup c index s.world) s refl
