-- ===== src/Restore/Content.antt =====
-- `fetchBackupInfo`, `fetchMetaServiceClient`, `fetchBackupContent`, `getContent`, `excludeResource`
-- and `cloneIndexer` of controllers/restore/restorecontroller.go, and
-- `GetBackupIdentifier` of utils/parser.go.
pub mod Works
pub mod Kept
pub mod Taken
mod Examples
use kahu.Api.{Backup}
use kahu.Backup.Cluster.{Lookup, found, not_found, lookup_error, BackupLocation, Provider}
use kahu.Restore.Objects.{Restore}
use kahu.Restore.Filters.{Object, Indexer}
use kahu.Restore.Cluster.{Cluster, Action, BackupIdentifier, Stream, call, ask}
use kahu.Base.{
  String, Bool, not, ◌&&◌, ◌||◌, Option, none, some, List, [], ◌∷◌, ◌==◌, if◌then◌else◌, contains,
  Error, message, wrap, Result, ok, err, Dict, at_key, put, ◌>>=◌, ◌>>◌, pure,
}

-- utils/constant.go
abbrev provider_service : String
provider_service = "kahu.io/provider-service"

pub record BackupInfo : Type 0 where
  pub backup : Backup
  pub backup_location : BackupLocation
  pub backup_provider : Provider

merge_into : Dict String → Dict String → Dict String
merge_into merged [] = merged
merge_into merged ((key, value) ∷ rest) = merge_into (put merged key value) rest

-- `GetBackupIdentifier` for objects that are not nil: the location's parameters win.
pub get_backup_identifier : BackupInfo → BackupIdentifier
get_backup_identifier info = record {
  backup_handle = info.backup.name;
  parameters = merge_into (merge_into [] info.backup_provider.manifest) info.backup_location.config;
}

-- constants.go: the kinds that a restore never takes.
abbrev exclude_resources : List String
exclude_resources = "Node" ∷ "Namespace" ∷ "Event" ∷ []

pub exclude_resource : Object → Bool
exclude_resource o =
    (o.kind == "Service" && o.name == "kubernetes") || contains exclude_resources o.kind

-- The lister's answer, with the text of the error that replaces its own.
unfoldable pub or_unavailable : {A : Type 0} → String → Lookup A → Result A
or_unavailable context (found a) = ok a
or_unavailable context (not_found e) = err (message context)
or_unavailable context (lookup_error e) = err (message context)

unfoldable pub and_then : {A B : Type 0} → (A → Result B) → Result A → Result B
and_then f (ok a) = f a
and_then f (err e) = err e

module _ (ix : Indexer) (c : Cluster ix.Cache) where
  open ix use {Cache, list, add, empty}
  open c use {
    World, get_backup, get_location, get_provider, dial, open_stream, receive, close_stream,
    unmarshal, mutate,
  }

  unfoldable pub fetch_provider : World → Backup → BackupLocation → Result BackupInfo
  fetch_provider w backup location =
      and_then
        (λ provider.
          ok (record { backup = backup; backup_location = location; backup_provider = provider }))
        (or_unavailable "backup provider not available" (get_provider location.provider_name w))

  unfoldable pub fetch_location : World → Backup → Result BackupInfo
  fetch_location w backup = and_then (fetch_provider w backup) (
      or_unavailable "backup location not available" (get_location backup.spec.metadata_location w))

  unfoldable pub fetch_backup_info : Restore → World → Result BackupInfo
  fetch_backup_info restore w =
      and_then (fetch_location w)
        (or_unavailable "backup not available" (get_backup restore.spec.backup_name w))

  service_dialled : String → Option Error → Result String
  service_dialled service none = ok service
  service_dialled service (some e) = err (message "failed to get metadata service client")

  dial_service : Option String → Action c (Result String)
  dial_service none = pure (err (message "failed to get metadata provider service info"))
  dial_service (some service) = do e ← call (dial service); pure (service_dialled service e)

  -- `fetchMetaServiceClient`: the service name to call, or an error.
  fetch_meta_service_client : Provider → Action c (Result String)
  fetch_meta_service_client provider =
      if not provider.metadata_type
      then pure (err (message "invalid metadata provider type"))
      else dial_service (at_key provider.annotations provider_service)

  -- `getContent`: what came before an error stays in the cache.
  and_rest : (Cache → Cache × Option Error) → Cache × Option Error → Cache × Option Error
  and_rest rest (st, none) = rest st
  and_rest rest (st, some e) = (st, some e)

  with_object : (Cache → Cache × Option Error) → Result Object → Cache → Cache × Option Error
  with_object rest (err e) st = (st, some (wrap e "unable to unmarshal received resource meta"))
  with_object rest (ok o) st = if exclude_resource o then rest st else and_rest rest (add o st)

  pub get_content : List String → Option Error → Cache → Cache × Option Error
  get_content [] none st = (st, none)
  get_content [] (some e) st = (st, some (wrap e "unable to receive backup resource meta"))
  get_content (m ∷ ms) ending st = with_object (get_content ms ending) (unmarshal m) st

  fill_cache : Stream → Action c (Option Error)
  fill_cache stream s =
      let (st, problem) = get_content stream.messages stream.ending s.backup_objects in
      (problem, record s { backup_objects = st })

  -- The error of `CloseSend` replaces that of `getContent`.
  last_error : Option Error → Option Error → Option Error
  last_error first (some e) = some e
  last_error first none = first

  content_streamed : Option Error → Action c (Option Error)
  content_streamed (some e) = pure (some (wrap e "error fetching meta service restore client"))
  content_streamed none = do
    stream ← ask receive
    problem ← fill_cache stream
    closed ← call close_stream
    pure (last_error problem closed)

  with_client : BackupInfo → Result String → Action c (Option Error)
  with_client info (err e) = pure (some e)
  with_client info (ok service) =
      call (open_stream service (get_backup_identifier info)) >>= content_streamed

  pub fetch_backup_content : BackupInfo → Action c (Option Error)
  fetch_backup_content info = fetch_meta_service_client info.backup_provider >>= with_client info

  -- `cloneIndexer`
  clone_into : List Object → Cache → Cache × Option Error
  clone_into [] st = (st, none)
  clone_into (o ∷ os) st =
      let (st', problem) = add o st in
      elim problem [
        | none ↦ clone_into os st'
        | some e ↦ (st', some (wrap e "unable to clone backup objects for restore"))
      ]

  pub clone_indexer : Cache → Cache × Option Error
  clone_indexer backup_objects = clone_into (list backup_objects) empty
