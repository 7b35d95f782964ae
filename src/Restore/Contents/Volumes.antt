-- ===== src/Restore/Contents/Volumes.antt =====
-- Which volume restore contents a restore makes.
use kahu.Restore.Objects.{
  Claim, VolumeBackupState, VolumeBackupContent, RestoreVolumeSpec, NewContent,
}
use kahu.Restore.Filters.{Indexer}
use kahu.Restore.Cluster.{Cluster, Machine, Action}
use kahu.Restore.Contents.{
  claim_map, volumes_of, construct_one, construct_each, construct_parsed, construct_contents,
  parse_vbc, content_of, restored_with, restored_volume,
}
use kahu.Base.{
  ℕ, String, ◌≡◌, refl, ap, ◌∙◌, inl, inr, Bool, true, false, not, Option, none, some, List, [],
  ◌∷◌, map, arith, eq_iff, ◌==◌, if◌then◌else◌, Bool-cases, is_empty, keep, ok, Dict, at_key, put,
  at_key-put,
}

-- The last claim in the list that is bound to a volume, or the one given.
last_claim : String → List Claim → Option Claim → Option Claim
last_claim volume [] before = before
last_claim volume (claim ∷ claims) before =
    last_claim volume claims (if claim.volume_name == volume then some claim else before)

at_key-claim_map :
    (claims : List Claim) (m : Dict Claim) (volume : String)
    → (volume == "") ≡ false
    → at_key (claim_map claims m) volume ≡ last_claim volume claims (at_key m volume)
unfolding claim_map last_claim
at_key-claim_map [] m volume h = refl
at_key-claim_map (claim ∷ claims) m volume h = elim (Bool-cases (claim.volume_name == "")) [
  | inl t ↦
      let other : (claim.volume_name == volume) ≡ false =
        ground
          (arith, eq_iff claim.volume_name "", eq_iff claim.volume_name volume, eq_iff volume "") in
      rw t (rw other (at_key-claim_map claims m volume h))
  | inr f ↦ rw f (
      at_key-claim_map claims (put m claim.volume_name claim) volume h
      ∙ rw (at_key-put m claim.volume_name volume claim) refl)
]

if-not : {A : Type 0} (b : Bool) (x y : A) → (if b then x else y) ≡ (if not b then y else x)
if-not true x y = refl
if-not false x y = refl

claim_map-unnamed :
    (claims : List Claim) (m : Dict Claim) → at_key (claim_map claims m) "" ≡ at_key m ""
unfolding claim_map
claim_map-unnamed [] m = refl
claim_map-unnamed (claim ∷ claims) m = elim (Bool-cases (claim.volume_name == "")) [
  | inl t ↦ rw t (claim_map-unnamed claims m)
  | inr f ↦ rw f (
      claim_map-unnamed claims (put m claim.volume_name claim)
      ∙ at_key-put m claim.volume_name "" claim
      ∙ rw f refl)
]

-- The claim that is restored for a volume: the last one bound to it.
claim_of : List Claim → String → Option Claim
claim_of claims volume = if volume == "" then none else last_claim volume claims none

claim_map-claim_of :
    (claims : List Claim) (volume : String)
    → at_key (claim_map claims []) volume ≡ claim_of claims volume
unfolding claim_of at_key
claim_map-claim_of claims volume = elim (Bool-cases (volume == "")) [
  | inl t ↦
      rw t
        (ap (at_key (claim_map claims [])) ((eq_iff volume "").0 t) ∙ claim_map-unnamed claims [])
  | inr f ↦ rw f (at_key-claim_map claims [] volume f)
]

-- The volumes that a backup content gives: for each of its states whose volume has a claim, that
-- claim with its volume name emptied, and the state's handle and attributes.
pub claimed_volumes : List Claim → List VolumeBackupState → List RestoreVolumeSpec
claimed_volumes claims [] = []
claimed_volumes claims (state ∷ states) = elim (claim_of claims state.volume_name) [
  | none ↦ claimed_volumes claims states
  | some claim ↦
      record {
        backup_handle = state.backup_handle;
        backup_attributes = state.backup_attributes;
        claim = record claim { volume_name = "" };
      }
      ∷ claimed_volumes claims states
]

restored_with-claimed :
    (state : VolumeBackupState) (found : Option Claim) (rest : List RestoreVolumeSpec)
    → restored_with state found rest ≡ elim found [
      | none ↦ rest
      | some claim ↦
          record {
            backup_handle = state.backup_handle;
            backup_attributes = state.backup_attributes;
            claim = record claim { volume_name = "" };
          }
          ∷ rest
    ]
unfolding restored_with restored_volume
restored_with-claimed state none rest = refl
restored_with-claimed state (some claim) rest = refl

volumes_of-claimed :
    (claims : List Claim) (states : List VolumeBackupState)
    → volumes_of (claim_map claims []) states ≡ claimed_volumes claims states
unfolding volumes_of claimed_volumes
volumes_of-claimed claims [] = refl
volumes_of-claimed claims (state ∷ states) = rw (claim_map-claim_of claims state.volume_name) (
    rw (volumes_of-claimed claims states)
      (restored_with-claimed state (claim_of claims state.volume_name) _))

map-claimed :
    (claims : List Claim) (vbcs : List VolumeBackupContent)
    → map (λ vbc. volumes_of (claim_map claims []) vbc.backup_state) vbcs
      ≡ map (λ vbc. claimed_volumes claims vbc.backup_state) vbcs
map-claimed claims [] = refl
map-claimed claims (vbc ∷ vbcs) =
    rw (volumes_of-claimed claims vbc.backup_state)
      (ap (λ l. claimed_volumes claims vbc.backup_state ∷ l) (map-claimed claims vbcs))

module _ (ix : Indexer) (c : Cluster ix.Cache) (restore_name : String) where
  one-volumes :
      (vbc : VolumeBackupContent) (vs : List RestoreVolumeSpec) (time : ℕ)
      (rest : Action c (List NewContent)) (rests : List (List RestoreVolumeSpec))
      → ((s : Machine c.World ix.Cache) → map (λ n. n.volumes) (rest s).0 ≡ rests)
      → (s : Machine c.World ix.Cache)
      → map (λ n. n.volumes) (construct_one ix c restore_name vbc vs time rest s).0
        ≡ (if is_empty vs then rests else vs ∷ rests)
  unfolding construct_one content_of
  one-volumes vbc [] time rest rests h s = h s
  one-volumes vbc (v ∷ vs) time rest rests h s = ap (λ l. (v ∷ vs) ∷ l) (h _)

  each-volumes :
      (claims : Dict Claim) (vbcs : List VolumeBackupContent) (s : Machine c.World ix.Cache)
      → map (λ n. n.volumes) (construct_each ix c restore_name claims vbcs s).0
        ≡ keep (λ vs. not (is_empty vs)) (map (λ vbc. volumes_of claims vbc.backup_state) vbcs)
  unfolding construct_each keep
  each-volumes claims [] s = refl
  each-volumes claims (vbc ∷ vbcs) s =
      one-volumes vbc (volumes_of claims vbc.backup_state) _ _ _ (each-volumes claims vbcs) s
      ∙ if-not (is_empty (volumes_of claims vbc.backup_state)) _ _

-- Where the backup contents in the cache can be read, a restore makes one volume restore content for
-- each of them that has a volume with a claim to restore, in their order: with the last claim bound to
-- each of its volumes, its volume name emptied, and the handle and attributes of the volume's backup.
pub construct_contents-volumes :
    (ix : Indexer) (c : Cluster ix.Cache) (restore_name : String) (st : ix.Cache)
    (claims : List Claim) (s : Machine c.World ix.Cache) {vbcs : List VolumeBackupContent}
    → parse_vbc ix c st ≡ ok vbcs
    → (contents : List NewContent) × ((construct_contents ix c restore_name st claims s).0
        ≡ ok contents)
      × (map (λ n. n.volumes) contents
          ≡ keep
              (λ vs. not (is_empty vs))
              (map (λ vbc. claimed_volumes claims vbc.backup_state) vbcs))
unfolding construct_contents construct_parsed
construct_contents-volumes ix c restore_name st claims s {vbcs} parsed = rw parsed (
  _,
  refl,
  each-volumes ix c restore_name (claim_map claims []) vbcs s
      ∙ ap (keep (λ vs. not (is_empty vs))) (map-claimed claims vbcs),
)
