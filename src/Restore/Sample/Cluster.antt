-- ===== src/Restore/Sample/Cluster.antt =====
-- A small cluster and restores, on which the theorems are tried.
use kahu.Api.{empty_backup}
use kahu.Backup.Cluster.{found, not_found, Call}
use kahu.Restore.Objects.{
  Restore, Claim, VolumeBackupContent, VolumeRestoreContent, phase_completed, empty_restore_status,
}
use kahu.Restore.Filters.{Object}
use kahu.Restore.Cluster.{Cluster, Machine, ClaimRef, created}
use kahu.Restore.Sample.{pod, restore_spec}
use kahu.Base.{
  ℕ, ◌+◌, String, true, false, not, Option, none, some, List, [], ◌∷◌, ◌==◌, if◌then◌else◌, Error,
  message, Result, ok, err,
}

-- The world counts the calls.
abbrev pub Ticks : Type 0
Ticks = ℕ

abbrev succeed : Call Ticks (Option Error)
succeed w = (none, w + 1)

-- A claim's volume has the name of the claim; only the claim `unnamed` has no storage class.
abbrev pub claim : String → Claim
claim name = record {
  namespace = "shop";
  name = name;
  volume_name = name;
  storage_class_name = if name == "unnamed" then none else some "fast";
}

abbrev to_volume_of : Object → Result (Option ClaimRef)
to_volume_of o =
    ok (some (record { kind = "PersistentVolumeClaim"; namespace = o.namespace; name = o.name }))

abbrev pub to_content : Object → VolumeBackupContent
to_content o = record {
  annotations = [];
  backup_name = "daily";
  volume_provider = none;
  backup_state = record { volume_name = o.name; backup_handle = "h1"; backup_attributes = [] } ∷ [];
}

abbrev pub content : String → ℕ → VolumeRestoreContent
content name progress = record {
  name = name;
  annotations = [];
  deleting = false;
  phase = phase_completed;
  progress = progress ∷ [];
}

-- The restore `gone` has no contents left, and the API does not list those of `unreachable`.
abbrev list_contents_of : String → Call Ticks (Result (List VolumeRestoreContent))
list_contents_of name w = (
  if name == "unreachable"
      then err (message "timeout")
      else if name == "gone"
      then ok []
      else ok (content "vrc-1" 100 ∷ []),
  w + 1,
)

abbrev pub a_restore : Restore
a_restore = record {
  name = "again";
  resource_version = "7";
  object_meta = record { finalizers = []; annotations = [] };
  deleted = false;
  spec = restore_spec;
  status = empty_restore_status;
}

abbrev pub pvc : String → Object
pvc name = record (pod name "shop" name) { kind = "PersistentVolumeClaim" }

abbrev pub cluster : Cluster (List Object)
cluster = record {
  World = Ticks;
  Patch = Restore;
  Hooks = String;
  now = λ w. w;
  new_name = λ w. ("vrc-1", w + 1);
  object = record { meta_key = λ r. ok r.name; resource_version = λ r. ok r.resource_version };
  compiles = λ pattern. not (pattern == "(");
  is_conflict = λ e. false;
  split_key = λ key. ok key;
  unmarshal = λ text. ok (pod text "shop" text);
  unmarshal_parameters = λ text. [];
  to_volume = to_volume_of;
  to_claim = λ o. ok (claim o.name);
  to_backup_content = λ o. ok (to_content o);
  to_storage_class = λ o. ok tt;
  merge_patch = λ old new. ok new;
  send_patch = λ name patch w. ((patch, none), w + 1);
  send_status = λ r w. ((r, none), w + 1);
  get_restore = λ name w. found a_restore;
  list_restores = λ w. ok (a_restore ∷ []);
  get_backup = λ name w. found (record empty_backup { name = name });
  get_location = λ name w. found (record { provider_name = "nfs"; config = ("bucket", "b1") ∷ [] });
  get_provider = λ name w. found (record {
    metadata_type = true;
    annotations = ("kahu.io/provider-service", "svc") ∷ [];
    manifest = ("bucket", "b0") ∷ [];
  });
  get_claim = λ ns name w. found (claim name);
  get_namespace = λ ns w. found tt;
  create_namespace = λ ns. succeed;
  list_contents = list_contents_of;
  create_content = λ n. succeed;
  delete_content = λ name. succeed;
  annotate_content = λ v name. succeed;
  discover = λ version kind. ok tt;
  get_object = λ o w. not_found (message "not found");
  create_object = λ o w. (created, w + 1);
  get_restored = λ r w. not_found (message "not found");
  delete_restored = λ r. succeed;
  dial = λ service. succeed;
  open_stream = λ service id. succeed;
  receive = λ w. record { messages = "web" ∷ []; ending = none };
  close_stream = succeed;
  mutate = λ spec st. (st, none);
  apply_workload = λ o r. succeed;
  apply_pod = λ o r. succeed;
  collect_hook_pods = λ r w. (ok "hooks", w + 1);
  wait_hooks = λ w. ([], w + 1);
  run_hooks = λ hooks. succeed;
}

abbrev pub machine : Machine Ticks (List Object)
machine = record {
  world = 0;
  processed = record { items = []; key_func = λ r. ok r.name };
  backup_objects = [];
  resolve_objects = none;
  history = [];
}
