-- ===== src/Restore/Content/Examples.antt =====
-- A stream of two objects, and the parameters of a backup.
use kahu.Restore.Sample.{list_indexer}
use kahu.Restore.Sample.Cluster.{cluster}
use kahu.Restore.Content.{BackupInfo, get_content, with_object, and_rest, exclude_resource}
use kahu.Restore.Content.Taken.{IsRestorable, IsSent, get_content-taken}
use kahu.Restore.Filters.{Object, same_key}
use kahu.Api.{empty_backup}
use kahu.Base.{String, ◌≡◌, refl, Bool, true, none, List, [], ◌∷◌, any, contains, ok, Member}

abbrev two_messages : List String
two_messages = "web" ∷ "db" ∷ []

abbrev taken : List Object
taken = (get_content list_indexer cluster two_messages none []).0

content_read : (get_content list_indexer cluster two_messages none []).1 ≡ none
unfolding get_content with_object and_rest exclude_resource contains
content_read = refl

get_content-taken_example :
    ((p : Object → Bool) → any p taken ≡ true → IsSent list_indexer cluster two_messages p)
    × ((m : String) (o : Object)
        → Member m two_messages
        → cluster.unmarshal m ≡ ok o
        → IsRestorable o
        → any (λ q. same_key q o) taken ≡ true)
get_content-taken_example = get_content-taken list_indexer cluster two_messages none content_read

abbrev info : BackupInfo
info = record {
  backup = empty_backup;
  backup_location = record { provider_name = "nfs"; config = ("bucket", "b1") ∷ [] };
  backup_provider = record {
    metadata_type = true;
    annotations = [];
    manifest = ("bucket", "b0") ∷ ("region", "eu") ∷ [];
  };
}
