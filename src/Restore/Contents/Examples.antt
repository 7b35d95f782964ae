-- ===== src/Restore/Contents/Examples.antt =====
-- The contents that a restore makes of two backups.
use kahu.Restore.Objects.{VolumeBackupContent, NewContent}
use kahu.Restore.Filters.{Object, is_unstructured}
use kahu.Restore.Sample.{list_indexer, pod}
use kahu.Restore.Sample.Cluster.{cluster, machine, claim, to_content}
use kahu.Restore.Contents.{construct_contents, parse_vbc, listed_contents, convert_all, joined}
use kahu.Restore.Contents.Volumes.{claimed_volumes, construct_contents-volumes}
use kahu.Base.{String, ◌≡◌, refl, not, List, [], ◌∷◌, map, is_empty, keep, ok}

-- A content that was backed up from the volume of the claim.
abbrev backed_up : String → Object
backed_up name = record (pod name "" name) { kind = "VolumeBackupContent" }

abbrev backups : List Object
backups = backed_up "data" ∷ backed_up "logs" ∷ []

abbrev vbcs : List VolumeBackupContent
vbcs = map to_content backups

backups_read : parse_vbc list_indexer cluster backups ≡ ok vbcs
unfolding parse_vbc listed_contents convert_all joined is_unstructured keep
backups_read = refl

construct_contents-volumes_example :
    (contents : List NewContent) × ((construct_contents list_indexer cluster "again" backups
        (claim "data" ∷ [])
        machine).0
      ≡ ok contents)
    × (map (λ n. n.volumes) contents
        ≡ keep
            (λ vs. not (is_empty vs))
            (map (λ vbc. claimed_volumes (claim "data" ∷ []) vbc.backup_state) vbcs))
construct_contents-volumes_example =
    construct_contents-volumes list_indexer cluster "again" backups (claim "data" ∷ []) machine
      backups_read
