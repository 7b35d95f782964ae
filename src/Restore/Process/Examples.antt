-- ===== src/Restore/Process/Examples.antt =====
-- The deletion of a restore on the small cluster.
use kahu.Restore.Objects.{Restore, empty_restore_status}
use kahu.Restore.Cluster.{wrote_metadata, Work}
use kahu.Restore.Sample.Cluster.{a_restore}
use kahu.Restore.Sync.{restore_finalizer}
use kahu.Base.{Bool, true, false, List, [], ◌∷◌, is_empty}

-- A restore of one resource that did not come to its end, and that is being deleted.
abbrev stopped : Restore
stopped = record a_restore {
  name = "gone";
  object_meta = record { finalizers = restore_finalizer ∷ []; annotations = [] };
  deleted = true;
  status = record empty_restore_status {
    resources =
        record { api_version = "v1"; kind = "Pod"; resource_name = "web"; namespace = "shop" } ∷ [];
  };
}

drops_finalizers : List Work → Bool
drops_finalizers (wrote_metadata restore ∷ h) = is_empty restore.object_meta.finalizers
drops_finalizers _ = false
