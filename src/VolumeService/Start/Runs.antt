-- ===== src/VolumeService/Start/Runs.antt =====
-- When the progress of a backup is polled.
use kahu.Backup.Cluster.{normal}
use kahu.VolumeService.Cluster.{Cluster, Machine, VolumeBackupContent, in_progress, made}
use kahu.VolumeService.Updaters.{update_status_with_event, error_of}
use kahu.VolumeService.Start.{handle_volume_backup}
use kahu.VolumeService.Request.{Request}
use kahu.Base.{◌≡◌, none}

-- A content is in progress, or its backup was started and the content in progress was written.
pub data IsStarted (c : Cluster) (content : VolumeBackupContent) (s : Machine c.World)
    : Type 0 where
  was_started : content.status.phase ≡ in_progress → IsStarted c content s
  now_started :
      (new_content : VolumeBackupContent) (s' : Machine c.World)
      → handle_volume_backup c content s ≡ (made new_content, s')
      → error_of (update_status_with_event c content new_content normal "VolumeBackupStarted" s').0
        ≡ none
      → IsStarted c content s
