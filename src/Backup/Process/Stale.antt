-- ===== src/Backup/Process/Stale.antt =====
-- Which backups `processQueue` passes over.
use kahu.Base.Integer.{ℤ}
use kahu.Api.{Backup}
use kahu.Utils.Store.Newest.{
  IsStamped, IsReadable, is_older, revision_at, store_revision_update_stale,
}
use kahu.Backup.Cluster.{Cluster, Machine, found}
use kahu.Backup.Process.{returned, process_queue, process_key, process_found, process_if_new}
use kahu.Base.{String, ◌≡◌, true, none, ok}

module _ (c : Cluster) (supported_resources key : String) (s : Machine c.World) {name : String}
    (backup : Backup) (keyed : c.split_key key ≡ ok name)
    (listed : c.get_backup name s.world ≡ found backup) where
  -- A backup whose revision is older than the cached one is passed over: nothing is done outside,
  -- and the controller's state stays as it is.
  pub process_queue_stale :
      (k : String) (n : ℤ)
      → IsStamped c.object s.cache.key_func backup k n
      → IsReadable s.cache
      → is_older n (revision_at s.cache k) ≡ true
      → process_queue c supported_resources key s ≡ (returned none, s)
  unfolding process_queue process_key process_found process_if_new
  process_queue_stale k n h readable older =
      rw keyed
        (rw listed (rw (store_revision_update_stale c.object s.cache backup k n h readable older)))
