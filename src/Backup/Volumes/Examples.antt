-- ===== src/Backup/Volumes/Examples.antt =====
-- The deletion of the contents of a backup.
use kahu.Backup.Cluster.{Machine, ContentRef}
use kahu.Backup.Volumes.{
  remove_volume_backup, delete_listed, delete_contents, delete_one, delete_rest,
}
use kahu.Backup.Volumes.Removal.{with_deletions, remove_volume_backup-history}
use kahu.Backup.Sample.{Ticks, cluster, a_backup, with_cache}
use kahu.Base.{◌≡◌, refl, none, List, [], ok}

abbrev machine : Machine Ticks
machine = with_cache []

all_asked : (remove_volume_backup cluster a_backup machine).0 ≡ none
unfolding remove_volume_backup delete_listed delete_contents delete_one delete_rest
all_asked = refl

remove_volume_backup-history_example :
    (vs : List ContentRef) × ((cluster.list_contents "daily" 0).0 ≡ ok vs)
    × ((remove_volume_backup cluster a_backup machine).1.history ≡ with_deletions [] vs)
remove_volume_backup-history_example =
    remove_volume_backup-history cluster a_backup machine all_asked
