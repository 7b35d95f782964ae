-- ===== src/VolumeService/Progress/Done.antt =====
-- When the polling of a backup ends.
use kahu.Backup.Cluster.{Lookup, found, not_found}
use kahu.Operation.{Handler, Polled, operate}
use kahu.VolumeService.Cluster.{
  Cluster, Machine, VolumeBackupContent, VolumeBackupState, BackupStat, completed,
}
use kahu.VolumeService.Updaters.{error_of, with_phase, patch_backup_status}
use kahu.Base.Integer.{pos, int_lt}
use kahu.VolumeService.Progress.{skip_backup_progress_processing, get_vol_identifiers, with_stats}
use kahu.Base.{String, ◌≡◌, true, false, none, List, [], ◌∷◌, Error, Result, ok, err, Member}

module _ (c : Cluster) where
  -- The driver's answer for a content, and the world after it.
  abbrev driver_answer : VolumeBackupContent → c.World → Result (List BackupStat) × c.World
  driver_answer content =
      c.get_backup_stat (get_vol_identifiers content.status.backup_states) content.spec.parameters

  -- The content is gone, or passed over; or the driver failed, not for being unavailable; or it
  -- answered with stats after which each volume is at 100, and the phase `Completed` was written.
  pub data IsOver (s : Machine c.World) : Lookup VolumeBackupContent → Type 0 where
    is_gone : {e : Error} → IsOver s (not_found e)
    is_skipped :
        {content : VolumeBackupContent}
        → skip_backup_progress_processing content ≡ true
        → IsOver s (found content)
    is_failed :
        {content : VolumeBackupContent} (e : Error)
        → (driver_answer content s.world).0 ≡ err e
        → c.is_unavailable e ≡ false
        → IsOver s (found content)
    is_finished :
        {content synced : VolumeBackupContent} (stats : List BackupStat)
        → (driver_answer content s.world).0 ≡ ok stats
        → synced ≡ with_stats (c.now (driver_answer content s.world).1) stats content
        → ((state : VolumeBackupState)
            → Member state synced.status.backup_states
            → int_lt state.progress (pos 100) ≡ false)
        → error_of
            (patch_backup_status c content
              (with_phase synced completed)
              (record s { world = (driver_answer content s.world).1 })).0
          ≡ none
        → IsOver s (found content)

  module _ (index : String) (handler : Handler) where
    abbrev Ends : Polled → Type 0
    Ends r = (operate index handler (r ∷ [])).1 ≡ true
