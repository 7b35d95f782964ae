-- ===== src/VolumeService/Delete/Examples.antt =====
-- A deletion of a content in progress.
use kahu.VolumeService.Cluster.{in_progress}
use kahu.VolumeService.Updaters.History.{picked, KeepsPhase}
use kahu.VolumeService.Delete.{process_delete_volume_backup}
use kahu.VolumeService.Delete.Released.{
  is_metadata, IsReleased, process_delete_volume_backup-IsReleased,
}
use kahu.VolumeService.Delete.Uncancelled.{is_cancel, process_delete_volume_backup-uncancelled}
use kahu.VolumeService.Sample.{content_in, cluster, machine}
use kahu.Base.{◌≡◌, ◌⊎◌, true, [], keep}

process_delete_volume_backup-IsReleased_example :
    (picked is_metadata
        (process_delete_volume_backup cluster (content_in in_progress true) machine).1
      ≡ [])
    ⊎ IsReleased cluster (content_in in_progress true) machine
unfolding keep
process_delete_volume_backup-IsReleased_example =
    process_delete_volume_backup-IsReleased cluster (content_in in_progress true) machine

keeps_phase : KeepsPhase cluster
keeps_phase old new r patch w merged sent = cc

process_delete_volume_backup-uncancelled_example :
    picked is_cancel (process_delete_volume_backup cluster (content_in in_progress true) machine).1
    ≡ []
unfolding keep
process_delete_volume_backup-uncancelled_example =
    process_delete_volume_backup-uncancelled cluster (content_in in_progress true) machine
      keeps_phase
