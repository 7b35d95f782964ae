-- ===== src/VolumeService/Process/Examples.antt =====
-- A content that is new, in the queue of its provider.
use kahu.VolumeService.Updaters.History.{picked}
use kahu.VolumeService.Process.{process_queue}
use kahu.VolumeService.Process.Assigned.{is_start, IsAssigned, process_queue-IsAssigned}
use kahu.VolumeService.Sample.{cluster, machine}
use kahu.Base.{◌≡◌, ◌⊎◌, [], keep}

process_queue-IsAssigned_example :
    (picked is_start (process_queue cluster "csi" "vbc2" machine).1 ≡ [])
    ⊎ IsAssigned cluster "csi" "vbc2" 200
unfolding keep
process_queue-IsAssigned_example = process_queue-IsAssigned cluster "csi" "vbc2" machine
