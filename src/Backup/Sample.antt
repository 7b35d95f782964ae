-- ===== src/Backup/Sample.antt =====
-- A small cluster and backups, on which the theorems are tried.
use kahu.Api.{Backup, BackupSpec, empty_backup}
use kahu.Utils.Store.{Item}
use kahu.Backup.Cluster.{Cluster, Machine, HookPhase, found, ContentRef, ContentPhase, Call}
use kahu.Base.{
  ℕ, ◌+◌, String, true, false, not, Option, none, some, List, [], ◌∷◌, ◌==◌, if◌then◌else◌, Error,
  message, Result, ok, err,
}

-- The world counts the calls.
abbrev pub Ticks : Type 0
Ticks = ℕ

abbrev succeed : Call Ticks (Option Error)
succeed w = (none, w + 1)

abbrev refusal : Error
refusal = message "conflict"

-- The name `refused` is that of a backup whose status the API server does not take.
abbrev send_status_of : Backup → Call Ticks (Backup × Option Error)
send_status_of backup w =
    if backup.name == "refused"
    then ((empty_backup, some refusal), w + 1)
    else ((backup, none), w + 1)

-- A hook specified as `fails` fails.
abbrev execute_hook_of : BackupSpec → HookPhase → Call Ticks (Option Error)
execute_hook_of spec phase w =
    (if spec.hook == "fails" then some (message "exit 1") else none, w + 1)

abbrev pub content : String → ContentPhase → ContentRef
content name phase = record { name = name; deleting = false; phase = phase }

abbrev two_contents : List ContentRef
two_contents = content "v1" ContentPhase.completed ∷ content "v2" ContentPhase.completed ∷ []

-- The name `unreachable` is that of a backup whose contents the API server does not list, and `gone`
-- that of one without contents.
abbrev list_contents_of : String → Call Ticks (Result (List ContentRef))
list_contents_of name w = (
  if name == "unreachable"
      then err (message "timeout")
      else if name == "gone"
      then ok []
      else ok two_contents,
  w + 1,
)

abbrev pub a_backup : Backup
a_backup = record empty_backup { name = "daily"; resource_version = "7" }

abbrev pub cluster : Cluster
cluster = record {
  World = Ticks;
  Patch = Backup;
  Object = String;
  Claim = String;
  Group = List String;
  Snapshotter = List String;
  Backupper = List String;
  now = λ w. w;
  object = record { meta_key = λ b. ok b.name; resource_version = λ b. ok b.resource_version };
  compiles = λ pattern. not (pattern == "(");
  split_key = λ key. ok key;
  merge_patch = λ old new. ok new;
  send_patch = λ name patch w. ((patch, none), w + 1);
  send_status = send_status_of;
  get_backup = λ name w. found a_backup;
  list_backups = λ w. ok (a_backup ∷ []);
  get_location = λ name w. found (record { provider_name = "nfs"; config = [] });
  get_provider = λ name w. found (record {
    metadata_type = true;
    annotations = ("kahu.io/provider-service", "svc") ∷ [];
    manifest = [];
  });
  list_contents = list_contents_of;
  delete_content = λ name. succeed;
  execute_hook = execute_hook_of;
  sync_resources = λ b w. ((b, none), w + 1);
  claims_of = λ b w. [];
  to_claim = λ o. ok o;
  group_by_claims = λ name claims w. (ok claims, w + 1);
  snapshot_by_group = λ g w. (ok g, w + 1);
  apply_snapshot = λ s. succeed;
  wait_snapshot = λ s name. succeed;
  backup_by_snapshot = λ s w. (ok s, w + 1);
  apply_backup = λ b name. succeed;
  dial = λ service. succeed;
  open_stream = λ name. succeed;
  run_backup = λ b. succeed;
  close_stream = succeed;
  delete_metadata = λ name. succeed;
}

abbrev pub key_of : Backup → Result String
key_of b = ok b.name

abbrev pub with_cache : List (String × Item) → Machine Ticks
with_cache items = record {
  world = 0;
  cache = record { items = items; key_func = key_of };
  events = [];
  history = [];
}
