-- ===== src/VolumeService/Delete/History.antt =====
-- What the steps of a deletion leave of the work that a test picks out of the history.
use kahu.Backup.Cluster.{Lookup, found, not_found, lookup_error}
use kahu.Utils.Metadata.{contains_finalizer}
use kahu.VolumeService.Updaters.History.{update_phase-picked, picked, patch_backup-picked}
use kahu.VolumeService.Updaters.{Patched, patch_failed, uncached, patched}
use kahu.VolumeService.Progress.{is_in_progress}
use kahu.VolumeService.Cluster.{
  wrote_status, cancelled_backup, deleted_backup, deleting_phase, wrote_metadata, Cluster, Machine,
  Action, VolumeBackupContent, OwnerReference, OwnerBackup, Work,
}
use kahu.VolumeService.Delete.{
  backup_cancelled, cancel_vol_backup, phase_updated, delete_validated,
  process_delete_volume_backup, ensure_finalizer_remove, finalizer_patched, finalizer_removed,
  clean_cache, backup_deleted, volume_backup_finalizer, is_valid_delete,
  is_valid_delete_with_backup, owner_found, and_owners, cancel_answered,
}
use kahu.Base.{
  String, ◌≡◌, refl, ap, ◌∙◌, inl, inr, Bool, true, false, Option, none, some, List, [], ◌∷◌, ◌==◌,
  Bool-cases, keep, Error, Result, ok, err,
}

module _ (c : Cluster) where
  owner_found-history :
      (owner : OwnerReference) (l : Lookup OwnerBackup) (s : Machine c.World)
      → (owner_found c owner l s).1.history ≡ s.history
  unfolding owner_found
  owner_found-history owner (lookup_error e) s = refl
  owner_found-history owner (not_found e) s = refl
  owner_found-history owner (found b) s = elim (Bool-cases (b.uid == owner.uid)) [
    | inr f ↦ simp f refl
    | inl t ↦ elim (Bool-cases b.deleted) [ inl d ↦ simp (t, d) refl | inr d ↦ simp (t, d) refl ]
  ]

  and_owners-history :
      (rest : Action c.World (Result Bool)) (r : Result Bool) (s : Machine c.World)
      → ((s' : Machine c.World) → (rest s').1.history ≡ s'.history)
      → (and_owners c rest r s).1.history ≡ s.history
  unfolding and_owners
  and_owners-history rest (err e) s h = refl
  and_owners-history rest (ok true) s h = h s
  and_owners-history rest (ok false) s h = refl

  pub is_valid_delete-history :
      (owners : List OwnerReference) (s : Machine c.World)
      → (is_valid_delete c owners s).1.history ≡ s.history
  unfolding is_valid_delete is_valid_delete_with_backup
  is_valid_delete-history [] s = refl
  is_valid_delete-history (owner ∷ owners) s = elim (Bool-cases (owner.kind == "Backup")) [
    | inr f ↦ rw f (is_valid_delete-history owners s)
    | inl t ↦ rw t (
        and_owners-history (is_valid_delete c owners) _ _ (is_valid_delete-history owners)
        ∙ owner_found-history owner (c.get_owner owner.name s.world) s)
  ]

  pub cancel_answered-history :
      (e : Option Error) (s : Machine c.World) → (cancel_answered c e s).1.history ≡ s.history
  unfolding cancel_answered
  cancel_answered-history none s = refl
  cancel_answered-history (some e) s = elim (Bool-cases (c.is_unavailable e)) [
    | inl t ↦ simp t refl
    | inr f ↦ simp f refl
  ]

  -- The removal of the finalizer.
  ensure_finalizer_remove-picked :
      (p : Work → Bool) (content : VolumeBackupContent) (s : Machine c.World)
      → ((new : VolumeBackupContent) → p (wrote_metadata new) ≡ false)
      → picked p (ensure_finalizer_remove c content s).1 ≡ picked p s
  unfolding ensure_finalizer_remove finalizer_patched
  ensure_finalizer_remove-picked p content s h =
      elim (Bool-cases (contains_finalizer (some content.object_meta) volume_backup_finalizer)) [
        | inl t ↦ rw t (patch_backup-picked c p content _ s (h _))
        | inr f ↦ rw f refl
      ]

  finalizer_removed-history :
      (content : VolumeBackupContent) (e : Option Error) (s : Machine c.World)
      → (finalizer_removed c content e s).1.history ≡ s.history
  unfolding finalizer_removed clean_cache
  finalizer_removed-history content none s = refl
  finalizer_removed-history content (some e) s = refl

  pub backup_deleted-picked :
      (p : Work → Bool) (content : VolumeBackupContent) (e : Option Error) (s : Machine c.World)
      → ((new : VolumeBackupContent) → p (wrote_metadata new) ≡ false)
      → picked p (backup_deleted c content e s).1 ≡ picked p s
  unfolding backup_deleted
  backup_deleted-picked p content none s h =
      ap (keep p) (finalizer_removed-history content _ (ensure_finalizer_remove c content s).1)
      ∙ ensure_finalizer_remove-picked p content s h
  backup_deleted-picked p content (some e) s h = elim (Bool-cases (c.is_unavailable e)) [
    | inl t ↦ simp t refl
    | inr f ↦ simp f refl
  ]

  -- Work that a test never picks.
  pub record IsOther (p : Work → Bool) : Type 0 where
    pub no_status : (content : VolumeBackupContent) → p (wrote_status content) ≡ false
    pub no_metadata : (content : VolumeBackupContent) → p (wrote_metadata content) ≡ false
    pub no_cancel : (name : String) → p (cancelled_backup name) ≡ false
    pub no_delete : (name : String) → p (deleted_backup name) ≡ false

  backup_cancelled-picked :
      (p : Work → Bool) (content : VolumeBackupContent) (e : Option Error) (s : Machine c.World)
      → IsOther p
      → picked p (backup_cancelled c content e s).1 ≡ picked p s
  unfolding backup_cancelled keep
  backup_cancelled-picked p content (some e) s h = refl
  backup_cancelled-picked p content none s h =
      backup_deleted-picked p content _ _ h.no_metadata ∙ simp (h.no_delete content.name) refl

  cancel_vol_backup-picked :
      (p : Work → Bool) (content : VolumeBackupContent) (s : Machine c.World)
      → IsOther p
      → picked p (cancel_vol_backup c content s).1 ≡ picked p s
  unfolding cancel_vol_backup keep
  cancel_vol_backup-picked p content s h =
      ap (keep p) (cancel_answered-history _ _) ∙ simp (h.no_cancel content.name) refl

  phase_updated-picked :
      (p : Work → Bool) (r : Patched) (s : Machine c.World)
      → IsOther p
      → picked p (phase_updated c r s).1 ≡ picked p s
  unfolding phase_updated
  phase_updated-picked p (patch_failed e) s h = refl
  phase_updated-picked p (uncached content e) s h = refl
  phase_updated-picked p (patched content) s h =
      elim (Bool-cases (is_in_progress content.status.phase)) [
        | inl t ↦
            rw t (backup_cancelled-picked p content _ _ h ∙ cancel_vol_backup-picked p content s h)
        | inr f ↦ rw f (backup_cancelled-picked p content none s h)
      ]

  delete_validated-picked :
      (p : Work → Bool) (content : VolumeBackupContent) (r : Result Bool) (s : Machine c.World)
      → IsOther p
      → picked p (delete_validated c content r s).1 ≡ picked p s
  unfolding delete_validated
  delete_validated-picked p content (err e) s h = refl
  delete_validated-picked p content (ok false) s h = refl
  delete_validated-picked p content (ok true) s h =
      phase_updated-picked p _ _ h
      ∙ update_phase-picked c p content deleting_phase s (h.no_status _)

  pub process_delete_volume_backup-picked :
      (p : Work → Bool) (content : VolumeBackupContent) (s : Machine c.World)
      → IsOther p
      → picked p (process_delete_volume_backup c content s).1 ≡ picked p s
  unfolding process_delete_volume_backup
  process_delete_volume_backup-picked p content s h =
      delete_validated-picked p content _ _ h
      ∙ ap (keep p) (is_valid_delete-history content.owners s)
