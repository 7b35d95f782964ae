-- ===== src/Restore/Contents.antt =====
-- `parseRestorePVC`, `parseVBC` and `constructVolumeRestoreContent` of
-- controllers/restore/volumerestore.go.
pub mod Works
pub mod Volumes
mod Examples
use kahu.Restore.Objects.{
  Claim, VolumeBackupState, VolumeBackupContent, RestoreVolumeSpec, NewContent,
}
use kahu.Restore.Filters.{Object, Indexer, is_unstructured}
use kahu.Restore.Cluster.{Cluster, Action, call, ask}
use kahu.Restore.Resolver.{pvc_kind}
use kahu.Base.{
  ℕ, String, Option, none, some, List, [], ◌∷◌, ◌==◌, if◌then◌else◌, wrap, Result, ok, err, Dict,
  at_key, put, ◌>>=◌, ◌>>◌, pure,
}

-- utils/constant.go
abbrev vbc_kind : String
vbc_kind = "VolumeBackupContent"

abbrev ann_backup_location_param : String
ann_backup_location_param = "kahu.io/backup-location-parameter"

joined : {A : Type 0} → Result A → Result (List A) → Result (List A)
joined (err e) rest = err (wrap e "Failed to covert unstructured resource to PVC for resolution")
joined (ok a) (err e) = err e
joined (ok a) (ok rest) = ok (a ∷ rest)

-- The conversion loop: an object of another form is passed over, and the first error ends it.
unfoldable pub convert_all : {A : Type 0} → (Object → Result A) → List Object → Result (List A)
unfolding joined
convert_all convert [] = ok []
convert_all convert (o ∷ os) =
    let rest = convert_all convert os in
    if is_unstructured o.form then joined (convert o) rest else rest

-- `pvcMap`: the last claim of a volume stands for it, and a claim without a volume is left out.
pub claim_map : List Claim → Dict Claim → Dict Claim
claim_map [] claims = claims
claim_map (claim ∷ rest) claims =
    claim_map rest (if claim.volume_name == "" then claims else put claims claim.volume_name claim)

-- The claim is shared with `pvcs`, but no later step reads its volume name there.
restored_volume : VolumeBackupState → Claim → RestoreVolumeSpec
restored_volume state claim = record {
  backup_handle = state.backup_handle;
  backup_attributes = state.backup_attributes;
  claim = record claim { volume_name = "" };
}

-- A state whose volume has no claim to restore gives nothing.
restored_with : VolumeBackupState → Option Claim → List RestoreVolumeSpec → List RestoreVolumeSpec
restored_with state none rest = rest
restored_with state (some claim) rest = restored_volume state claim ∷ rest

pub volumes_of : Dict Claim → List VolumeBackupState → List RestoreVolumeSpec
volumes_of claims [] = []
volumes_of claims (state ∷ states) =
    restored_with state (at_key claims state.volume_name) (volumes_of claims states)

module _ (ix : Indexer) (c : Cluster ix.Cache) where
  open ix use {Cache, by_kind}
  open c use {World, now, new_name, to_claim, to_backup_content, unmarshal_parameters}

  unfoldable pub listed_claims : Result (List Object) → Result (List Claim)
  listed_claims (err e) = ok []
  listed_claims (ok os) = convert_all to_claim os

  -- A nil cache, and an error of the cache, are taken for one without claims.
  unfoldable pub parse_restore_pvc : Option Cache → Result (List Claim)
  parse_restore_pvc none = ok []
  parse_restore_pvc (some st) = listed_claims (by_kind pvc_kind st)

  listed_contents : Result (List Object) → Result (List VolumeBackupContent)
  listed_contents (err e) = err e
  listed_contents (ok os) = convert_all to_backup_content os

  pub parse_vbc : Cache → Result (List VolumeBackupContent)
  parse_vbc st = listed_contents (by_kind vbc_kind st)

  parameters_of : Option String → Dict String
  parameters_of none = []
  parameters_of (some text) = unmarshal_parameters text

  content_of : String → VolumeBackupContent → List RestoreVolumeSpec → ℕ → String → NewContent
  content_of restore_name vbc volumes time name = record {
    name = name;
    label = restore_name;
    backup_name = vbc.backup_name;
    restore_name = restore_name;
    volumes = volumes;
    volume_provider = vbc.volume_provider;
    parameters = parameters_of (at_key vbc.annotations ann_backup_location_param);
    start_timestamp = time;
  }

  -- The body of the loop over the backup contents: one without a claim to restore gives nothing.
  construct_one :
      String
      → VolumeBackupContent
      → List RestoreVolumeSpec
      → ℕ
      → Action c (List NewContent)
      → Action c (List NewContent)
  construct_one restore_name vbc [] time rest = rest
  construct_one restore_name vbc (v ∷ vs) time rest = do
    name ← call new_name
    contents ← rest
    pure (content_of restore_name vbc (v ∷ vs) time name ∷ contents)

  pub construct_each : String → Dict Claim → List VolumeBackupContent → Action c (List NewContent)
  construct_each restore_name claims [] = pure []
  construct_each restore_name claims (vbc ∷ vbcs) =
      let rest = construct_each restore_name claims vbcs in
      ask now >>= λ time.
      construct_one restore_name vbc (volumes_of claims vbc.backup_state) time rest

  construct_parsed :
      String → List Claim → Result (List VolumeBackupContent) → Action c (Result (List NewContent))
  construct_parsed restore_name claims (err e) =
      pure (err (wrap e "Unable to parse Volume backup content"))
  construct_parsed restore_name claims (ok vbcs) =
      construct_each restore_name (claim_map claims []) vbcs >>= λ contents. pure (ok contents)

  pub construct_contents : String → Cache → List Claim → Action c (Result (List NewContent))
  construct_contents restore_name st claims = construct_parsed restore_name claims (parse_vbc st)
