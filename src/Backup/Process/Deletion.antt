-- ===== src/Backup/Process/Deletion.antt =====
-- When `deleteBackup` gives a backup up.
use kahu.Api.{Backup}
use kahu.Backup.Cluster.{Cluster, Machine, ContentRef}
use kahu.Backup.Volumes.{remove_volume_backup}
use kahu.Backup.Volumes.Removal.{OnlyDeletes, remove_volume_backup-OnlyDeletes, OnlyDeletes-trans}
use kahu.Backup.Metadata.{delete_metadata_backup}
use kahu.Backup.Metadata.Gone.{IsMetadataGone, delete_metadata_backup-IsMetadataGone}
use kahu.Backup.Metadata.Removal.{delete_metadata_backup-OnlyDeletes}
use kahu.Backup.Process.{delete_backup, contents_removed, contents_left, metadata_deleted}
use kahu.Base.{
  String, ◌≡◌, refl, ◌⊎◌, inl, inr, Option, none, some, List, [], ◌∷◌, Error, Result, ok, err,
}

-- The steps of a deletion that came to its end: all contents were asked to go, the API lists none,
-- and the metadata is gone.
pub record IsCleanedUp (c : Cluster) (backup : Backup) (s : Machine c.World) : Type 0 where
  pub after_contents : Machine c.World
  pub contents_removed_ok : remove_volume_backup c backup s ≡ (none, after_contents)
  pub no_content : (c.list_contents backup.name after_contents.world).0 ≡ ok []
  pub metadata_removed :
      IsMetadataGone c backup (c.list_contents backup.name after_contents.world).1

module _ (c : Cluster) (supported_resources : String) (backup : Backup) (s : Machine c.World) where
  metadata_step :
      (s' : Machine c.World) (e : Option Error)
      → (delete_metadata_backup c backup s').0 ≡ e
      → OnlyDeletes s.history s'.history
      → OnlyDeletes s.history
          (metadata_deleted c supported_resources backup e
            (delete_metadata_backup c backup s').1).1.history
        ⊎ ((delete_metadata_backup c backup s').0 ≡ none)
  unfolding metadata_deleted
  metadata_step s' none h so_far = inr h
  metadata_step s' (some e) h so_far =
      inl (OnlyDeletes-trans so_far (delete_metadata_backup-OnlyDeletes c backup s'))

  contents_step :
      (s' : Machine c.World) (r : Result (List ContentRef))
      → remove_volume_backup c backup s ≡ (none, s')
      → (c.list_contents backup.name s'.world).0 ≡ r
      → OnlyDeletes s.history s'.history
      → OnlyDeletes s.history
          (contents_left c supported_resources backup r
            (record s' { world = (c.list_contents backup.name s'.world).1 })).1.history
        ⊎ IsCleanedUp c backup s
  unfolding contents_left
  contents_step s' (err e) removed listed so_far = inl so_far
  contents_step s' (ok (v ∷ vs)) removed listed so_far = inl so_far
  contents_step s' (ok []) removed listed so_far =
      let s'' = record s' { world = (c.list_contents backup.name s'.world).1 } in
      elim (metadata_step s'' (delete_metadata_backup c backup s'').0 refl so_far) [
        | inl only ↦ inl only
        | inr gone ↦ inr (record {
          after_contents = s';
          contents_removed_ok = removed;
          no_content = listed;
          metadata_removed = delete_metadata_backup-IsMetadataGone c backup s'' gone;
        })
      ]

  removed_step :
      (e : Option Error) (s' : Machine c.World)
      → remove_volume_backup c backup s ≡ (e, s')
      → OnlyDeletes s.history s'.history
      → OnlyDeletes s.history (contents_removed c supported_resources backup e s').1.history
        ⊎ IsCleanedUp c backup s
  unfolding contents_removed
  removed_step (some e) s' removed so_far = inl so_far
  removed_step none s' removed so_far =
      contents_step s' (c.list_contents backup.name s'.world).0 removed refl so_far

-- `deleteBackup` does nothing but delete, and so keeps the finalizer in the backup's metadata, unless
-- `removeVolumeBackup` returned no error, the API then listed no content of the backup any more, and
-- the metadata is gone: the backup is in the state `Failed`, or in a stage other than `Resources` and
-- `Finished`, or the metadata service of its location's provider was reached and took the deletion
-- without an error.
pub delete_backup-IsCleanedUp :
    (c : Cluster) (supported_resources : String) (backup : Backup) (s : Machine c.World)
    → OnlyDeletes s.history (delete_backup c supported_resources backup s).1.history
      ⊎ IsCleanedUp c backup s
unfolding delete_backup
delete_backup-IsCleanedUp c supported_resources backup s =
    removed_step c supported_resources backup s (remove_volume_backup c backup s).0
      (remove_volume_backup c backup s).1 refl (remove_volume_backup-OnlyDeletes c backup s)
