-- ===== src/Restore/Volumes/Examples.antt =====
-- The volume stage of a small restore.
use kahu.Restore.Objects.{Restore, processing, is_completed_state, empty_restore_status}
use kahu.Restore.Filters.{Object}
use kahu.Restore.Sample.Cluster.{a_restore, pvc}
use kahu.Restore.Cluster.{Work, wrote_status}
use kahu.Base.{Bool, false, Option, some, List, [], ◌∷◌}

-- A restore of one claim, whose volume is at 100.
abbrev restoring : Restore
restoring = record a_restore { status = record empty_restore_status { state = processing } }

abbrev one_claim : Option (List Object)
one_claim = some (pvc "data" ∷ [])

says_completed : List Work → Bool
says_completed (wrote_status restore ∷ h) = is_completed_state restore.status.state
says_completed _ = false
