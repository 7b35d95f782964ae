-- ===== src/Utils/Kinds.antt =====
-- utils/constant.go: the names of the kinds.
use kahu.Base.{String}

abbrev pub pod_kind : String
pod_kind = "Pod"

abbrev pub deployment_kind : String
deployment_kind = "Deployment"

abbrev pub replica_set_kind : String
replica_set_kind = "ReplicaSet"

abbrev pub stateful_set_kind : String
stateful_set_kind = "StatefulSet"

abbrev pub daemon_set_kind : String
daemon_set_kind = "DaemonSet"

abbrev pub config_map_kind : String
config_map_kind = "ConfigMap"

abbrev pub secret_kind : String
secret_kind = "Secret"

abbrev pub pvc_kind : String
pvc_kind = "PersistentVolumeClaim"

abbrev pub pv_kind : String
pv_kind = "PersistentVolume"

abbrev pub sc_kind : String
sc_kind = "StorageClass"

abbrev pub node_kind : String
node_kind = "Node"

abbrev pub event_kind : String
event_kind = "Event"

abbrev pub volume_snapshot_kind : String
volume_snapshot_kind = "VolumeSnapshot"

abbrev pub endpoint_slice_kind : String
endpoint_slice_kind = "EndpointSlice"
