-- ===== src/Backup/Updaters/Examples.antt =====
-- A status update that has nothing to write.
use kahu.Api.{Backup, empty_status, empty_spec, pre_hook, processing, same_state}
use kahu.Backup.Cluster.{Machine, normal}
use kahu.Backup.Status.{draft_status}
use kahu.Backup.Volumes.{of_state}
use kahu.Backup.Updaters.{update_backup_status_with_event, update_backup_status, report}
use kahu.Backup.Sample.{Ticks, cluster, a_backup, with_cache}
use kahu.Base.{◌≡◌, refl, none, []}

abbrev pub hooked : Backup
hooked = record a_backup {
  spec = record empty_spec { hook = "fails" };
  status = record empty_status { stage = pre_hook; state = processing };
}

abbrev pub machine : Machine Ticks
machine = with_cache []

pub hooked_updated :
    update_backup_status_with_event cluster hooked (of_state processing) normal "PreHook" machine
    ≡ ((hooked, none), machine)
unfolding update_backup_status_with_event update_backup_status report draft_status same_state
hooked_updated = refl
