-- ===== src/Backup/Updaters/Dropped.antt =====
-- What `updateBackupStatus` returns when the API server refuses the write.
use kahu.Api.{Backup, BackupStatus, empty_backup}
use kahu.Utils.Store.Newest.{store_revision_update_unknown}
use kahu.Backup.Cluster.{Cluster, Machine}
use kahu.Backup.Status.{draft_status}
use kahu.Backup.Updaters.{revise, revised, write_status, update_backup_status}
use kahu.Base.{String, ◌≡◌, true, none, some, Error, ok, at_key}

module _ (c : Cluster) (backup : Backup) (status : BackupStatus) (s : Machine c.World) {e : Error}
    {k : String} {w : c.World} (dirty : (draft_status backup.status status).dirty ≡ true)
    (refused : c.send_status
        (record backup { status = (draft_status backup.status status).status })
        s.world
      ≡ ((empty_backup, some e), w))
    (meta_keyed : c.object.meta_key empty_backup ≡ ok k)
    (keyed : s.cache.key_func empty_backup ≡ ok k) where
  -- For an update that has something to write and that the API server refuses: the generated client
  -- returns an empty backup with its error. Where no backup is cached under the key of the empty one,
  -- the error is dropped, and the update returns the empty backup and no error.
  pub update_backup_status_dropped :
      {version : String}
      → c.object.resource_version empty_backup ≡ ok version
      → at_key s.cache.items k ≡ none
      → (update_backup_status c backup status s).0 ≡ (empty_backup, none)
  unfolding update_backup_status write_status revise revised
  update_backup_status_dropped versioned unknown = rw dirty (
      rw refused (
        rw (
          store_revision_update_unknown c.object s.cache empty_backup meta_keyed keyed versioned
              unknown,
          revised,
        )))
