-- ===== src/VolumeService/Delete/Released.antt =====
-- When a content's finalizer is given up.
use kahu.VolumeService.Cluster.{
  Cluster, Machine, VolumeBackupContent, Work, wrote_metadata, deleting_phase,
}
use kahu.VolumeService.Updaters.{Patched, patch_failed, uncached, patched, update_phase}
use kahu.VolumeService.Updaters.History.{picked, update_phase-picked}
use kahu.VolumeService.Progress.{get_vol_identifiers, is_in_progress}
use kahu.VolumeService.Delete.{
  is_valid_delete, delete_validated, phase_updated, cancel_vol_backup, backup_cancelled,
  backup_deleted, process_delete_volume_backup,
}
use kahu.VolumeService.Delete.Owners.{OwnersMayGo, is_valid_delete-OwnersMayGo}
use kahu.VolumeService.Delete.History.{is_valid_delete-history, cancel_answered-history}
use kahu.Base.{
  ◌≡◌, refl, ap, ◌∙◌, ◌⊎◌, inl, inr, Bool, true, false, Option, none, some, Bool-cases, keep, Error,
  Result, ok, err,
}

pub is_metadata : Work → Bool
is_metadata (wrote_metadata content) = true
is_metadata _ = false

-- The steps of a deletion that came to its end: the owners let the content go, the phase was updated,
-- and the driver deleted the backup without an error.
pub record IsReleased (c : Cluster) (content : VolumeBackupContent) (s : Machine c.World)
    : Type 0 where
  pub after_test : Machine c.World
  pub is_valid : is_valid_delete c content.owners s ≡ (ok true, after_test)
  pub owners_gone : OwnersMayGo c content.owners s.world
  pub marked : VolumeBackupContent
  pub is_marked : (update_phase c content deleting_phase after_test).0 ≡ patched marked
  pub world : c.World
  pub is_deleted :
      (c.delete_backup marked.name
        (get_vol_identifiers marked.status.backup_states)
        marked.spec.parameters
        world).0
      ≡ none

module _ (c : Cluster) where
  -- The driver deletes the backup of a content.
  abbrev IsDeleted : VolumeBackupContent → Type 0
  IsDeleted marked =
      (w : c.World) × ((c.delete_backup marked.name
          (get_vol_identifiers marked.status.backup_states) marked.spec.parameters w).0
        ≡ none)

  deleted_step :
      (marked : VolumeBackupContent) (e : Option Error) (s : Machine c.World)
      → (picked is_metadata (backup_deleted c marked e s).1 ≡ picked is_metadata s) ⊎ (e ≡ none)
  unfolding backup_deleted
  deleted_step marked none s = inr refl
  deleted_step marked (some e) s = elim (Bool-cases (c.is_unavailable e)) [
    | inl t ↦ inl (simp t refl)
    | inr f ↦ inl (simp f refl)
  ]

  cancelled_step :
      (marked : VolumeBackupContent) (e : Option Error) (s : Machine c.World)
      → (picked is_metadata (backup_cancelled c marked e s).1 ≡ picked is_metadata s)
        ⊎ IsDeleted marked
  unfolding backup_cancelled keep is_metadata
  cancelled_step marked (some e) s = inl refl
  cancelled_step marked none s = elim (deleted_step marked _ _) [
    | inl same ↦ inl same
    | inr gone ↦ inr (s.world, gone)
  ]

  cancel-picked :
      (marked : VolumeBackupContent) (s : Machine c.World)
      → picked is_metadata (cancel_vol_backup c marked s).1 ≡ picked is_metadata s
  unfolding cancel_vol_backup keep is_metadata
  cancel-picked marked s = ap (keep is_metadata) (cancel_answered-history c _ _)

  phase_step :
      (p : Patched) (s : Machine c.World)
      → (picked is_metadata (phase_updated c p s).1 ≡ picked is_metadata s)
        ⊎ ((marked : VolumeBackupContent) × (p ≡ patched marked) × IsDeleted marked)
  unfolding phase_updated
  phase_step (patch_failed e) s = inl refl
  phase_step (uncached content e) s = inl refl
  phase_step (patched marked) s = elim (Bool-cases (is_in_progress marked.status.phase)) [
    | inl t ↦ elim (cancelled_step marked _ (cancel_vol_backup c marked s).1) [
      | inl same ↦ inl (rw t (same ∙ cancel-picked marked s))
      | inr gone ↦ inr (marked, refl, gone)
    ]
    | inr f ↦ elim (cancelled_step marked none s) [
      | inl same ↦ inl (rw f same)
      | inr gone ↦ inr (marked, refl, gone)
    ]
  ]

  module _ (content : VolumeBackupContent) (s : Machine c.World) where
    validated_step :
        (r : Result Bool) (s' : Machine c.World)
        → is_valid_delete c content.owners s ≡ (r, s')
        → (picked is_metadata (delete_validated c content r s').1 ≡ picked is_metadata s')
          ⊎ IsReleased c content s
    unfolding delete_validated is_metadata
    validated_step (err e) s' h = inl refl
    validated_step (ok false) s' h = inl refl
    validated_step (ok true) s' h =
        elim (phase_step (update_phase c content deleting_phase s').0 _) [
          | inl same ↦ inl (same ∙ update_phase-picked c is_metadata content deleting_phase s' refl)
          | inr (marked, is_marked, (w, gone)) ↦ inr (record {
            after_test = s';
            is_valid = h;
            owners_gone = is_valid_delete-OwnersMayGo c content.owners s (ap (λ r. r.0) h);
            marked = marked;
            is_marked = is_marked;
            world = w;
            is_deleted = gone;
          })
        ]

    -- The deletion of a content patches no metadata, and so keeps the finalizer, unless each backup
    -- that owns it does not exist, is another one of its name or is being deleted, the content was
    -- marked as being deleted, and the driver has deleted its backup without an error.
    pub process_delete_volume_backup-IsReleased :
        (picked is_metadata (process_delete_volume_backup c content s).1 ≡ picked is_metadata s)
        ⊎ IsReleased c content s
    unfolding process_delete_volume_backup
    process_delete_volume_backup-IsReleased =
        let (r, s') = is_valid_delete c content.owners s in
        elim (validated_step r s' refl) [
          | inl same ↦
              inl (same ∙ ap (keep is_metadata) (is_valid_delete-history c content.owners s))
          | inr done ↦ inr done
        ]
