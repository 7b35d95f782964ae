-- ===== src/VolumeService/Request.antt =====
-- The request that starts a backup: `constructBackupRequest` and what it calls in backupvolume.go.
use Prim.Native.String.{◌++◌ as append}
use kahu.Backup.Cluster.{Lookup, found, not_found, lookup_error}
use kahu.VolumeService.Cluster.{
  Cluster, Attempt, made, ended, VolumeBackupContent, Volume, SnapshotState, StartBackupRequest,
}
use kahu.Base.{
  String, Option, none, some, List, [], ◌∷◌, map, if◌then◌else◌, contains, message, Result, ok, err,
  raised, nil_pointer,
}

-- `Insert` into a `sets.String`.
unfoldable pub insert : List String → String → List String
insert names name = if contains names name then names else name ∷ names

unfoldable pub from_names : List String → List String → List String
from_names names [] = names
from_names names (name ∷ more) = from_names (insert names name) more

-- The set of the names.
unfoldable pub name_set : List String → List String
name_set names = from_names [] names

-- A request with the names of its volumes.
abbrev pub Request : Type 0
Request = StartBackupRequest × List String

module _ (c : Cluster) where
  open c use {World, get_snapshot, csi_content, csi_content_name, claimed_volume, get_volume}

  volume_found : Lookup Volume → Attempt Volume
  volume_found (found v) = made v
  volume_found (not_found e) = ended (raised e)
  volume_found (lookup_error e) = ended (raised e)

  -- `getPVBySnapshotState`
  get_claimed : World → Result String → Attempt Volume
  get_claimed w (err e) = ended (raised e)
  get_claimed w (ok name) = volume_found (get_volume name w)

  get_pv_by_snapshot_state : World → SnapshotState → Attempt Volume
  get_pv_by_snapshot_state w state =
      get_claimed w (claimed_volume state.pvc_namespace state.pvc_name w)

  -- `getSnapshotBySnapshotState`, for the handle that it returns. It reads the pointers of a snapshot
  -- that is not bound.
  content_bound : World → Result (Option String) → Attempt String
  content_bound w (err e) = ended (raised e)
  content_bound w (ok none) = ended nil_pointer
  content_bound w (ok (some name)) = elim (csi_content_name name w) [
    | err e ↦ ended (raised e)
    | ok handle ↦ made handle
  ]

  snapshot_of : World → Option (String × String) → Attempt String
  snapshot_of w none = ended (raised (message "csi Snapshot info not populated"))
  snapshot_of w (some (namespace, name)) = content_bound w (csi_content namespace name w)

  get_snapshot_by_snapshot_state : World → SnapshotState → Attempt String
  get_snapshot_by_snapshot_state w state = snapshot_of w state.csi_snapshot_ref

  with_pv :
      String → Attempt Volume → Attempt (List (String × Volume)) → Attempt (List (String × Volume))
  with_pv handle (ended fault) rest = ended fault
  with_pv handle (made pv) (ended fault) = ended fault
  with_pv handle (made pv) (made infos) = made ((handle, pv) ∷ infos)

  with_snapshot :
      Attempt String
      → Attempt Volume
      → Attempt (List (String × Volume))
      → Attempt (List (String × Volume))
  with_snapshot (ended fault) pv rest = ended fault
  with_snapshot (made handle) pv rest = with_pv handle pv rest

  snapshot_infos : World → List SnapshotState → Attempt (List (String × Volume))
  snapshot_infos w [] = made []
  snapshot_infos w (state ∷ states) =
      with_snapshot (get_snapshot_by_snapshot_state w state) (get_pv_by_snapshot_state w state)
        (snapshot_infos w states)

  request_by_infos : VolumeBackupContent → Attempt (List (String × Volume)) → Attempt Request
  request_by_infos content (ended fault) = ended fault
  request_by_infos content (made infos) = made (
    record {
      backup_content_name = content.name;
      pv = [];
      backup_info = infos;
      parameters = content.spec.parameters;
    },
    name_set (map (λ info. info.1.name) infos),
  )

  -- `getVolBackupReqByRef`
  request_by_ref : VolumeBackupContent → World → Result (List SnapshotState) → Attempt Request
  request_by_ref content w (err e) = ended (raised e)
  request_by_ref content w (ok states) = request_by_infos content (snapshot_infos w states)

  -- `getPersistentVols`. The version and the kind come from the content.
  with_volume : Volume → Lookup Volume → Attempt (List Volume) → Attempt (List Volume)
  with_volume wanted (not_found e) rest =
      ended (raised (message (append "request PV (" (append wanted.name ") backup not found"))))
  with_volume wanted (lookup_error e) rest = ended (raised e)
  with_volume wanted (found pv) (ended fault) = ended fault
  with_volume wanted (found pv) (made rest) =
      made (record pv { api_version = wanted.api_version; kind = wanted.kind } ∷ rest)

  get_persistent_vols : World → List Volume → Attempt (List Volume)
  get_persistent_vols w [] = made []
  get_persistent_vols w (v ∷ vs) = with_volume v (get_volume v.name w) (get_persistent_vols w vs)

  request_by_volumes : VolumeBackupContent → Attempt (List Volume) → Attempt Request
  request_by_volumes content (ended fault) = ended fault
  request_by_volumes content (made volumes) = made (
    record {
      backup_content_name = content.name;
      pv = volumes;
      backup_info = [];
      parameters = content.spec.parameters;
    },
    name_set (map (λ v. v.name) volumes),
  )

  request_from : VolumeBackupContent → Option String → World → Attempt Request
  request_from content (some ref) w = request_by_ref content w (get_snapshot ref w)
  request_from content none w =
      request_by_volumes content (get_persistent_vols w content.spec.volumes)

  pub construct_backup_request : VolumeBackupContent → World → Attempt Request
  construct_backup_request content w = request_from content content.spec.backup_source_ref w
