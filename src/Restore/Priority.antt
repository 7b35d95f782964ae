-- ===== src/Restore/Priority.antt =====
-- `canonicalName` and `prioritiseResources` of controllers/restore/metadatarestore.go: the order in
-- which the objects of a restore are applied.
pub mod Kinds
pub mod Ranks
mod Examples
use Prim.Native.String.{◌++◌ as append}
use kahu.Restore.Filters.{Object}
use kahu.Base.{String, not, List, [], ◌∷◌, ◌++◌, map, ◌==◌, keep, contains}

-- `defaultRestorePriorities`
abbrev pub default_restore_priorities : List String
default_restore_priorities =
    "CustomResourceDefinition" ∷ "MutatingWebhookConfiguration" ∷ "ValidatingWebhookConfiguration"
    ∷ "ClusterRole" ∷ "ClusterRoleBinding" ∷ "Namespace" ∷ "Role" ∷ "RoleBinding" ∷ "StorageClass"
    ∷ "VolumeSnapshotClass" ∷ "VolumeSnapshotContent" ∷ "VolumeSnapshot" ∷ "PersistentVolume"
    ∷ "PersistentVolumeClaim" ∷ "Secret" ∷ "ConfigMap" ∷ "ServiceAccount" ∷ "LimitRange" ∷ "Pod"
    ∷ "ReplicaSet" ∷ "DaemonSet" ∷ "Deployment" ∷ "StatefulSet" ∷ "Job" ∷ "Cronjob" ∷ []

pub canonical_name : Object → String
canonical_name o =
    append o.namespace
      (append ":" (append o.api_version (append ":" (append o.kind (append ":" o.name)))))

-- The two loops over the priorities and the resources, of which the inner one takes a kind.
pub sorted_by : List String → List Object → List Object
sorted_by [] os = []
sorted_by (kind ∷ kinds) os = keep (λ o. o.kind == kind) os ++ sorted_by kinds os

-- The second loop takes the resources whose canonical name is not among the sorted ones.
pub prioritise_by : List String → List Object → List Object
prioritise_by kinds os =
    let sorted = sorted_by kinds os in
    let names = map canonical_name sorted in
    sorted ++ keep (λ o. not (contains names (canonical_name o))) os

pub prioritise_resources : List Object → List Object
prioritise_resources os = prioritise_by default_restore_priorities os
