-- ===== src/Backup/Sync/Examples.antt =====
-- A pre hook that fails.
use kahu.Backup.Cluster.{pre_phase, ran_hook}
use kahu.Backup.Order.{InOrder}
use kahu.Backup.Updaters.Examples.{hooked, machine, hooked_updated}
use kahu.Backup.Sync.{sync_pre_hook}
use kahu.Backup.Sync.Failures.{sync_pre_hook_failed}
use kahu.Backup.Sample.{cluster}
use kahu.Base.{refl, some, [], ◌∷◌, message}

sync_pre_hook_failed_example :
    InOrder 3
      (ran_hook pre_phase (some (message "exit 1")) ∷ [])
      4
      (sync_pre_hook cluster hooked machine).1.history
sync_pre_hook_failed_example =
    sync_pre_hook_failed cluster hooked hooked machine machine (message "exit 1") 1 hooked_updated
      refl
