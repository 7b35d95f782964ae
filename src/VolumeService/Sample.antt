-- ===== src/VolumeService/Sample.antt =====
-- A provider of one volume, whose driver knows the backup and whose API server keeps what it is sent.
use kahu.Base.Integer.{pos}
use kahu.Operation.{new_manager}
use kahu.Backup.Cluster.{found, not_found}
use kahu.VolumeService.Cluster.{
  Cluster, Machine, VolumeBackupContent, VolumeBackupState, BackupIdentifier, BackupStat, Volume,
  Phase, in_progress, init_phase,
}
use kahu.Base.{ℕ, Bool, false, none, some, [], ◌∷◌, ◌==◌, if◌then◌else◌, message, ok}

abbrev a_volume : Volume
a_volume = record { name = "pv1"; api_version = "v1"; kind = "PersistentVolume" }

abbrev pub a_state : VolumeBackupState
a_state = record {
  volume_name = "pv1";
  backup_handle = "h1";
  backup_attributes = [];
  progress = pos 40;
  last_progress_update = 100;
}

-- A content of a backup that is deleted.
abbrev pub content_in : Phase → Bool → VolumeBackupContent
content_in phase deleted = record {
  name = "vbc1";
  object_meta = record { finalizers = "kahu.io/volume-backup-protection" ∷ []; annotations = [] };
  owners = record { kind = "Backup"; name = "b1"; uid = "u1" } ∷ [];
  deleted = deleted;
  spec = record { volumes = a_volume ∷ []; parameters = []; backup_source_ref = none };
  status = record {
    phase = phase;
    volume_backup_provider = some "csi";
    start_timestamp = some 90;
    failure_reason = "";
    backup_states = a_state ∷ [];
  };
}

abbrev pub an_identifier : BackupIdentifier
an_identifier = record {
  pv_name = "pv1";
  identity = record { backup_handle = "h1"; backup_attributes = [] };
}

abbrev pub a_stat : BackupStat
a_stat = record { backup_handle = "h1"; progress = pos 100 }

-- The world is the time.
abbrev pub cluster : Cluster
cluster = record {
  World = ℕ;
  Patch = VolumeBackupContent;
  now = λ w. w;
  object = record { meta_key = λ content. ok content.name; resource_version = λ content. ok "1" };
  is_not_found = λ e. false;
  is_unavailable = λ e. false;
  sorted = λ names. names;
  join = λ names separator. "";
  split_key = λ index. ok index;
  get_content =
      λ name w. found (content_in (if name == "vbc2" then init_phase else in_progress) false);
  get_owner = λ name w. not_found (message "no backup");
  get_snapshot = λ name w. ok [];
  csi_content = λ namespace name w. ok none;
  csi_content_name = λ name w. ok name;
  claimed_volume = λ namespace name w. ok "pv1";
  get_volume = λ name w. found a_volume;
  merge_patch = λ old new. ok new;
  send_patch = λ name patch w. (ok patch, w);
  send_status_patch = λ name patch w. (ok patch, w);
  start_backup = λ request w. (ok (record { errors = []; backup_info = an_identifier ∷ [] }), w);
  cancel_backup = λ identities parameters w. (none, w);
  delete_backup = λ name identities parameters w. (none, w);
  get_backup_stat = λ identities parameters w. (ok (a_stat ∷ []), w);
}

abbrev pub machine : Machine ℕ
machine = record {
  world = 200;
  cache = record { items = []; key_func = λ content. ok content.name };
  operations = new_manager;
  events = [];
  history = [];
}
