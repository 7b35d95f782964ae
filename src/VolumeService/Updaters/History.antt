-- ===== src/VolumeService/Updaters/History.antt =====
-- What an update leaves of the work that a test picks out of the history.
use kahu.Backup.Cluster.{Call}
use kahu.VolumeService.Cluster.{
  Cluster, Machine, VolumeBackupContent, Phase, Work, wrote_status, wrote_metadata,
}
use kahu.VolumeService.Updaters.{
  patched, patch_cached, revise, patch_backup, patch_backup_status, patch_merged, patch_sent,
  update_phase, with_phase, with_status,
}
use kahu.Base.{◌≡◌, refl, ◌∙◌, Bool, false, Option, none, some, List, keep, Error, Result, ok, err}

-- The work that a test picks.
abbrev pub picked : {W : Type 0} → (Work → Bool) → Machine W → List Work
picked p s = keep p s.history

module _ (c : Cluster) (p : Work → Bool) where
  patch_sent-picked :
      (r : Result VolumeBackupContent) (s : Machine c.World)
      → picked p (patch_sent c r s).1 ≡ picked p s
  unfolding patch_sent revise
  patch_sent-picked (err e) s = refl
  patch_sent-picked (ok updated) s = refl

  patch_merged-picked :
      (work : Work) (send : c.Patch → Call c.World (Result VolumeBackupContent))
      (r : Result c.Patch) (s : Machine c.World)
      → p work ≡ false
      → picked p (patch_merged c work send r s).1 ≡ picked p s
  unfolding patch_merged keep
  patch_merged-picked work send (err e) s h = refl
  patch_merged-picked work send (ok patch) s h =
      patch_sent-picked (send patch s.world).0 _ ∙ simp h refl

  pub patch_backup_status-picked :
      (old new : VolumeBackupContent) (s : Machine c.World)
      → p (wrote_status new) ≡ false
      → picked p (patch_backup_status c old new s).1 ≡ picked p s
  unfolding patch_backup_status
  patch_backup_status-picked old new s =
      patch_merged-picked (wrote_status new) _ (c.merge_patch old new) s

  pub patch_backup-picked :
      (old new : VolumeBackupContent) (s : Machine c.World)
      → p (wrote_metadata new) ≡ false
      → picked p (patch_backup c old new s).1 ≡ picked p s
  unfolding patch_backup
  patch_backup-picked old new s =
      patch_merged-picked (wrote_metadata new) _ (c.merge_patch old new) s

  pub update_phase-picked :
      (content : VolumeBackupContent) (phase : Phase) (s : Machine c.World)
      → p (wrote_status (with_phase content phase)) ≡ false
      → picked p (update_phase c content phase s).1 ≡ picked p s
  unfolding update_phase
  update_phase-picked content phase s =
      patch_backup_status-picked content (with_phase content phase) s

-- The API server returns a content with the phase that the patch asks for.
abbrev pub KeepsPhase : Cluster → Type 0
KeepsPhase c =
    (old new r : VolumeBackupContent) (patch : c.Patch) (w : c.World)
    → c.merge_patch old new ≡ ok patch
    → (c.send_status_patch old.name patch w).0 ≡ ok r
    → r.status.phase ≡ new.status.phase

module _ (c : Cluster) where
  cached_phase :
      (content : VolumeBackupContent) (e : Option Error) (r : VolumeBackupContent)
      → patch_cached c content e ≡ patched r
      → r ≡ content
  unfolding patch_cached
  cached_phase content none r h = cc
  cached_phase content (some e) r h = cc

  sent_phase :
      (answer : Result VolumeBackupContent) (r : VolumeBackupContent) (s : Machine c.World)
      → (patch_sent c answer s).0 ≡ patched r
      → answer ≡ ok r
  unfolding patch_sent
  sent_phase (err e) r s h = cc
  sent_phase (ok content) r s h = let same = cached_phase content _ r h in cc

  merged_phase :
      (old new r : VolumeBackupContent) (m : Result c.Patch) (s : Machine c.World)
      → KeepsPhase c
      → c.merge_patch old new ≡ m
      → (patch_merged c (wrote_status new) (c.send_status_patch old.name) m s).0 ≡ patched r
      → r.status.phase ≡ new.status.phase
  unfolding patch_merged
  merged_phase old new r (err e) s keeps m h = cc
  merged_phase old new r (ok patch) s keeps m h =
      keeps old new r patch s.world m (sent_phase _ r _ h)

  -- Where the API server keeps the phase that it is sent, an update of the phase returns it.
  pub update_phase-phase :
      (content r : VolumeBackupContent) (phase : Phase) (s : Machine c.World)
      → KeepsPhase c
      → (update_phase c content phase s).0 ≡ patched r
      → r.status.phase ≡ phase
  unfolding update_phase patch_backup_status with_phase with_status
  update_phase-phase content r phase s keeps h =
      merged_phase content (with_phase content phase) r _ s keeps refl h
