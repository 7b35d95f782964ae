-- ===== src/Backup/Examples.antt =====
-- The theorems on the backup controller, tried on the small cluster.
use kahu.Base.Integer.{pos, int_lt, parse_int}
use kahu.Api.{
  Backup, BackupStatus, BackupResource, empty_status, initial, same_state, volumes, processing,
  finished, pre_hook, completed,
}
use kahu.Utils.Store.{text, get, add}
use kahu.Utils.Store.Revision.{store_revision_update}
use kahu.Utils.Store.Newest.{is_older, revision_at}
use kahu.Backup.Cluster.{Machine, Work, wrote_metadata}
use kahu.Backup.Order.{InOrder}
use kahu.Backup.Status.{to_ordinal, draft_status}
use kahu.Backup.Volumes.Removal.{OnlyDeletes, same, more, of_content, of_metadata}
use kahu.Backup.Sync.{sync_backup}
use kahu.Backup.Sync.Phases.{first_place, sync_backup-InOrder}
use kahu.Backup.Validate.{validate_backup}
use kahu.Backup.Validate.Decides.{accepts, validate_backup-accepts}
use kahu.Backup.Process.{
  delete_backup, contents_removed, contents_left, metadata_deleted, deletion_patched, clean_cache,
  with_meta,
}
use kahu.Backup.Volumes.{
  remove_volume_backup, delete_listed, delete_contents, delete_one, delete_rest,
}
use kahu.Backup.Metadata.{
  delete_metadata_backup, fetch_meta_service_client, location_client, provider_client, delete_sent,
  or_error,
}
use kahu.Backup.Updaters.{patch_backup, patch_merged, patch_sent, patch_cached, revise}
use kahu.Backup.Process.Deletion.{IsCleanedUp, delete_backup-IsCleanedUp}
use kahu.Backup.Reconcile.{reconcile_backup}
use kahu.Backup.Reconcile.Outcome.{IsSettled, reconcile_backup-IsSettled}
use kahu.Backup.Sample.{Ticks, cluster, a_backup, with_cache}
use kahu.Base.{
  String, ◌≡◌, refl, ◌⊎◌, inl, inr, Bool, true, false, none, some, List, [], ◌∷◌, at_key,
}

abbrev machine : Machine Ticks
machine = with_cache []

abbrev at_initial : Backup
at_initial = record a_backup {
  status = record empty_status { stage = initial; state = processing };
}

sync_backup-InOrder_example :
    InOrder (first_place initial) [] 5 (sync_backup cluster at_initial machine).1.history
sync_backup-InOrder_example = sync_backup-InOrder cluster at_initial machine

-- A backup whose resources are stored, and that is being deleted.
abbrev stored : Backup
stored = record a_backup {
  name = "gone";
  deleted = true;
  status = record empty_status { stage = finished; state = completed };
}

begins_with_metadata : List Work → Bool
begins_with_metadata (wrote_metadata backup ∷ h) = true
begins_with_metadata _ = false

-- The metadata that the deletion writes in the end.
metadata_written :
    begins_with_metadata (delete_backup cluster "Pod" stored machine).1.history ≡ true
unfolding begins_with_metadata with_meta store_revision_update get add revise patch_cached
    delete_one delete_rest delete_backup contents_removed contents_left metadata_deleted
    deletion_patched clean_cache remove_volume_backup delete_listed delete_contents
    delete_metadata_backup fetch_meta_service_client location_client provider_client delete_sent
    or_error patch_backup patch_merged patch_sent int_lt to_ordinal same_state at_key
metadata_written = refl

OnlyDeletes-begins :
    {old h : List Work}
    → begins_with_metadata old ≡ false
    → OnlyDeletes old h
    → begins_with_metadata h ≡ false
unfolding begins_with_metadata
OnlyDeletes-begins e same = e
OnlyDeletes-begins e (more only (of_content name)) = refl
OnlyDeletes-begins e (more only (of_metadata name)) = refl

not_deletes_alone :
    {A : Type 0} {h : List Work} → begins_with_metadata h ≡ true → OnlyDeletes [] h ⊎ A → A
unfolding begins_with_metadata
not_deletes_alone e (inl only) = let n = OnlyDeletes-begins refl only in absurd (cc)
not_deletes_alone e (inr a) = a

delete_backup-IsCleanedUp_example : IsCleanedUp cluster stored machine
delete_backup-IsCleanedUp_example =
    not_deletes_alone metadata_written (delete_backup-IsCleanedUp cluster "Pod" stored machine)

validate_backup-accepts_example :
    ((validate_backup cluster a_backup machine).0.0 ≡ accepts cluster a_backup.spec 0)
    × (accepts cluster a_backup.spec 0 ≡ true
        → validate_backup cluster a_backup machine ≡ ((true, none), machine))
validate_backup-accepts_example = validate_backup-accepts cluster a_backup machine

abbrev in_volumes_stage : Backup
in_volumes_stage = record a_backup {
  status = record empty_status { stage = volumes; state = processing };
}

reconcile_backup-IsSettled_example :
    ((reconcile_backup cluster in_volumes_stage machine).1.history ≡ [])
    ⊎ IsSettled cluster in_volumes_stage machine
reconcile_backup-IsSettled_example =
    reconcile_backup-IsSettled cluster in_volumes_stage machine refl

abbrev unreachable : Backup
unreachable = record a_backup { name = "unreachable"; deleted = true }

abbrev started : BackupStatus
started = record empty_status { stage = volumes; state = processing; start_timestamp = some 4 }

abbrev next_update : BackupStatus
next_update = record empty_status { stage = finished; start_timestamp = some 9 }

-- An update to an earlier stage.
abbrev late_update : BackupStatus
late_update = record empty_status { stage = pre_hook; start_timestamp = some 9 }

clean : (draft_status started late_update).dirty ≡ false
unfolding draft_status int_lt to_ordinal
clean = refl

abbrev resource : String → BackupResource
resource name = record {
  api_version = "v1";
  kind = "Pod";
  resource_name = name;
  namespace = "shop";
  resource_status = "";
}

abbrev seen_later : Machine Ticks
seen_later = with_cache (("daily", text "9") ∷ [])

older : is_older (pos 7) (revision_at seen_later.cache "daily") ≡ true
unfolding at_key parse_int int_lt
older = refl

abbrev seen_word : Machine Ticks
seen_word = with_cache (("daily", text "new") ∷ [])

cached_word : at_key seen_word.cache.items "daily" ≡ some (text "new")
unfolding at_key
cached_word = refl

-- The cluster refuses the status of this backup, and no empty backup is cached.
abbrev refused : Backup
refused = record a_backup { name = "refused"; status = started }

dirty : (draft_status started next_update).dirty ≡ true
unfolding draft_status int_lt to_ordinal
dirty = refl

uncached : at_key machine.cache.items "" ≡ none
unfolding at_key
uncached = refl
