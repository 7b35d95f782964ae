-- ===== src/VolumeService/Progress/Examples.antt =====
-- Polls of a backup of one volume.
use kahu.Operation.{Handler}
use kahu.VolumeService.Cluster.{in_progress}
use kahu.VolumeService.Progress.{with_stats}
use kahu.VolumeService.Progress.Synced.{Each, IsSynced, with_stats-Each}
use kahu.VolumeService.Sample.{a_state, a_stat, content_in}
use kahu.Base.{true, false, [], ◌∷◌}

with_stats-Each_example :
    Each
      (IsSynced 200 (a_stat ∷ []))
      (a_state ∷ [])
      (with_stats 200 (a_stat ∷ []) (content_in in_progress false)).status.backup_states
with_stats-Each_example = with_stats-Each 200 (a_stat ∷ []) (content_in in_progress false)

abbrev handler : Handler
handler = record { has_on_failure = true; has_on_success = true }
