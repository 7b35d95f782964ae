-- ===== src/Restore/Populate.antt =====
-- `populateRestoreResources` and `patchRestoreObjects` of controllers/restore/restorecontroller.go.
pub mod Untimed
use Prim.Native.String.{◌++◌ as append}
use kahu.Restore.Objects.{Restore, RestoreResource, failed}
use kahu.Restore.Filters.{Object, Indexer, is_unstructured, construct_filter_handler}
use kahu.Restore.Cluster.{Cluster, Action, Fault, raised, nil_pointer, stack_overflow, ask}
use kahu.Restore.Updaters.{Returned, update_restore_status}
use kahu.Restore.Resolver.{resolve_all}
use kahu.Restore.Content.{BackupInfo, fetch_backup_info, fetch_backup_content, clone_indexer}
use kahu.Base.{
  ℕ, String, Option, none, some, List, map, keep, Error, message, text_of, Result, ok, err, ◌>>=◌,
  pure,
}

-- `Status.State` and `Status.FailureReason`, as a failure sets them.
abbrev pub failed_for : String → Restore → Restore
failed_for reason restore =
    let status = record (restore.status) { state = failed; failure_reason = reason } in
    record restore { status = status }

-- The entry of the restore's status for an object of the cache.
to_resource : Object → RestoreResource
to_resource o = record {
  api_version = o.api_version;
  kind = o.kind;
  resource_name = o.name;
  namespace = o.namespace;
}

with_resources : List Object → Restore → Restore
with_resources os restore =
    let resources = map to_resource (keep (λ o. is_unstructured o.form) os) in
    record restore { status = record (restore.status) { resources = resources } }

module _ (ix : Indexer) (c : Cluster ix.Cache) (stack : ℕ) where
  open ix use {Cache, list}
  open c use {World, mutate}

  given_up : String → Returned → Action c Returned
  given_up what (restore, some fault) = pure (restore, some fault)
  given_up what (restore, none) = pure (restore, some (raised (message what)))

  -- A failure is written to the status, and is an error either way.
  give_up : String → String → Restore → Action c Returned
  give_up reason what restore =
      update_restore_status c (failed_for reason restore) >>= given_up what

  -- An error of the write is logged.
  keep_objects : Cache → Returned → Action c Returned
  keep_objects st (restore, fault) s = ((restore, none), record s { resolve_objects = some st })

  patch_objects : Restore → Cache → Action c Returned
  patch_objects restore st =
      update_restore_status c (with_resources (list st) restore) >>= keep_objects st

  mutated : Restore → Cache × Option Error → Action c Returned
  mutated restore (st, some e) =
      give_up (append "Failed to mutate resources. " (text_of e)) "Failed to add mutation" restore
  mutated restore (st, none) = patch_objects restore st

  -- The crash of a recursion without end is no error that the code could see.
  resolved : Restore → Cache × Option Fault → Action c Returned
  resolved restore (st, some (raised e)) =
      give_up (append "Failed to get dependency resources. " (text_of e))
        "Failed to resolve dependencies during restore validation" restore
  resolved restore (st, some nil_pointer) = pure (restore, some nil_pointer)
  resolved restore (st, some stack_overflow) = pure (restore, some stack_overflow)
  resolved restore (st, none) = mutated restore (mutate restore.spec st)

  filtered : Restore → Cache × Option Error → Action c Returned
  filtered restore (st, some e) =
      give_up (append "Failed to filter resources. " (text_of e))
        "Failed to filter resources from cache" restore
  filtered restore (st, none) = λ s. resolved restore (resolve_all ix c stack st s.backup_objects) s

  cloned : Restore → Cache × Option Error → Action c Returned
  cloned restore (st, some e) = give_up (text_of e) "Failed to create index" restore
  cloned restore (st, none) = filtered restore (construct_filter_handler ix restore.spec st)

  content_fetched : Restore → Option Error → Action c Returned
  content_fetched restore (some e) =
      give_up (append "Failed to get backup content. " (text_of e)) "Failed to fetch backup content"
        restore
  content_fetched restore none = λ s. cloned restore (clone_indexer ix c s.backup_objects) s

  info_fetched : Restore → Result BackupInfo → Action c Returned
  info_fetched restore (err e) =
      give_up (append "Failed to get backup content. " (text_of e)) "Failed to fetch backup info"
        restore
  info_fetched restore (ok info) = fetch_backup_content ix c info >>= content_fetched restore

  fetch_resources : Restore → Action c Returned
  fetch_resources restore = ask (fetch_backup_info ix c restore) >>= info_fetched restore

  unless_fetched : Restore → Option Cache → Action c Returned
  unless_fetched restore (some st) = pure (restore, none)
  unless_fetched restore none = fetch_resources restore

  pub populate_restore_resources : Restore → Action c Returned
  populate_restore_resources restore s = unless_fetched restore s.resolve_objects s
