-- ===== src/VolumeService/Delete/Uncancelled.antt =====
-- Whether a deletion cancels the backup that runs.
use kahu.VolumeService.Cluster.{
  Cluster, Machine, VolumeBackupContent, deleting_phase, Work, cancelled_backup,
}
use kahu.VolumeService.Updaters.{Patched, patch_failed, uncached, patched, update_phase}
use kahu.VolumeService.Updaters.History.{
  picked, update_phase-picked, KeepsPhase, update_phase-phase,
}
use kahu.VolumeService.Progress.{is_in_progress}
use kahu.VolumeService.Delete.{
  delete_validated, phase_updated, backup_cancelled, process_delete_volume_backup,
}
use kahu.VolumeService.Delete.History.{is_valid_delete-history, backup_deleted-picked}
use kahu.Base.{◌≡◌, refl, ap, ◌∙◌, Bool, true, false, keep, Result, ok, err}

pub is_cancel : Work → Bool
is_cancel (cancelled_backup name) = true
is_cancel _ = false

module _ (c : Cluster) where
  phase_uncancelled :
      (p : Patched) (s : Machine c.World)
      → ((r : VolumeBackupContent) → p ≡ patched r → r.status.phase ≡ deleting_phase)
      → picked is_cancel (phase_updated c p s).1 ≡ picked is_cancel s
  unfolding phase_updated backup_cancelled keep is_cancel is_in_progress
  phase_uncancelled (patch_failed e) s h = refl
  phase_uncancelled (uncached content e) s h = refl
  phase_uncancelled (patched content) s h =
      let f : is_in_progress content.status.phase ≡ false = ap is_in_progress (h content refl) in
      rw f (backup_deleted-picked c is_cancel content _ _ (λ new. refl))

  validated_uncancelled :
      (content : VolumeBackupContent) (r : Result Bool) (s : Machine c.World)
      → KeepsPhase c
      → picked is_cancel (delete_validated c content r s).1 ≡ picked is_cancel s
  unfolding delete_validated is_cancel
  validated_uncancelled content (err e) s keeps = refl
  validated_uncancelled content (ok false) s keeps = refl
  validated_uncancelled content (ok true) s keeps =
      phase_uncancelled (update_phase c content deleting_phase s).0 _
        (λ r h. update_phase-phase c content r deleting_phase s keeps h)
      ∙ update_phase-picked c is_cancel content deleting_phase s refl

  -- Where the API server returns a content with the phase that it is sent, the deletion of a content
  -- never calls `CancelBackup`, though its backup is in progress: the phase is updated before it is
  -- tested.
  pub process_delete_volume_backup-uncancelled :
      (content : VolumeBackupContent) (s : Machine c.World)
      → KeepsPhase c
      → picked is_cancel (process_delete_volume_backup c content s).1 ≡ picked is_cancel s
  unfolding process_delete_volume_backup
  process_delete_volume_backup-uncancelled content s keeps =
      validated_uncancelled content _ _ keeps
      ∙ ap (keep is_cancel) (is_valid_delete-history c content.owners s)
