-- ===== src/Backup/Metadata/Gone.antt =====
-- When `deleteMetadataBackup` returns no error.
use kahu.Base.Integer.{int_lt}
use kahu.Api.{
  Backup, BackupState, BackupStage, no_stage, initial, pre_hook, volumes, post_hook, resources,
  finished, failed, same_state, same_state_iff,
}
use kahu.Backup.Cluster.{
  Cluster, Machine, Lookup, found, not_found, lookup_error, BackupLocation, Provider, ◌>>=◌,
}
use kahu.Backup.Status.{to_ordinal}
use kahu.Backup.Metadata.{
  or_error, provider_client, location_client, fetch_meta_service_client, delete_sent,
  delete_metadata_backup,
}
use kahu.Base.{
  String, ◌≡◌, refl, inl, inr, Bool, true, false, Option, none, some, Bool-cases, Error, ok, at_key,
}

-- The stages in which no resource has been sent to a metadata service.
abbrev is_early : BackupStage → Bool
is_early resources = false
is_early finished = false
is_early _ = true

-- The backup failed, or had not come to its resources, or the provider of its metadata location has a
-- metadata service, which answered and took the deletion of the backup without an error.
pub data IsMetadataGone (c : Cluster) (backup : Backup) (w : c.World) : Type 0 where
  was_failed : backup.status.state ≡ failed → IsMetadataGone c backup w
  was_early : is_early backup.status.stage ≡ true → IsMetadataGone c backup w
  was_deleted :
      (location : BackupLocation) (provider : Provider) (service : String)
      → c.get_location backup.spec.metadata_location w ≡ found location
      → c.get_provider location.provider_name w ≡ found provider
      → provider.metadata_type ≡ true
      → at_key provider.annotations "kahu.io/provider-service" ≡ some service
      → (c.dial service w).0 ≡ none
      → (c.delete_metadata backup.name (c.dial service w).1).0 ≡ none
      → IsMetadataGone c backup w

same_state-failed : (state : BackupState) → same_state state failed ≡ true → state ≡ failed
same_state-failed state h = (same_state_iff state failed).0 h

int_lt-is_early :
    (stage : BackupStage)
    → int_lt (to_ordinal stage) (to_ordinal resources) ≡ true
    → is_early stage ≡ true
unfolding int_lt to_ordinal
int_lt-is_early no_stage h = refl
int_lt-is_early initial h = refl
int_lt-is_early pre_hook h = refl
int_lt-is_early volumes h = refl
int_lt-is_early post_hook h = refl
int_lt-is_early resources h = cc
int_lt-is_early finished h = cc
int_lt-is_early _ h = refl

module _ (c : Cluster) (backup : Backup) (s : Machine c.World) where
  module _ (location : BackupLocation)
      (located : c.get_location backup.spec.metadata_location s.world ≡ found location) where
    module _ (provider : Provider)
        (provided : c.get_provider location.provider_name s.world ≡ found provider) where
      sent_gone :
          (service : String) (e deleted : Option Error)
          → provider.metadata_type ≡ true
          → at_key provider.annotations "kahu.io/provider-service" ≡ some service
          → (c.dial service s.world).0 ≡ e
          → (c.delete_metadata backup.name (c.dial service s.world).1).0 ≡ deleted
          → ((provider_client c (ok provider) >>= delete_sent c backup.name) s).0 ≡ none
          → IsMetadataGone c backup s.world
      unfolding provider_client delete_sent
      sent_gone service none none typed named dialled deleted h =
          was_deleted location provider service located provided typed named dialled deleted
      sent_gone service none (some e) typed named dialled deleted h =
          let h' = rw typed at h in
          let h'' = rw named at h' in
          let h3 = rw dialled at h'' in let h4 = rw deleted at h3 in absurd (cc)
      sent_gone service (some e) deleted typed named dialled deletion h =
          let h' = rw typed at h in
          let h'' = rw named at h' in let h3 = rw dialled at h'' in absurd (cc)

      service_gone :
          (o : Option String)
          → provider.metadata_type ≡ true
          → at_key provider.annotations "kahu.io/provider-service" ≡ o
          → ((provider_client c (ok provider) >>= delete_sent c backup.name) s).0 ≡ none
          → IsMetadataGone c backup s.world
      unfolding provider_client delete_sent
      service_gone none typed named h =
          let h' = rw typed at h in let h'' = rw named at h' in absurd (cc)
      service_gone (some service) typed named h = sent_gone service _ _ typed named refl refl h

      type_gone :
          (typed : Bool)
          → provider.metadata_type ≡ typed
          → ((provider_client c (ok provider) >>= delete_sent c backup.name) s).0 ≡ none
          → IsMetadataGone c backup s.world
      unfolding provider_client delete_sent
      type_gone false typed h = let h' = rw typed at h in absurd (cc)
      type_gone true typed h = service_gone _ typed refl h

    provider_gone :
        (l : Lookup Provider)
        → c.get_provider location.provider_name s.world ≡ l
        → ((provider_client c (or_error l) >>= delete_sent c backup.name) s).0 ≡ none
        → IsMetadataGone c backup s.world
    unfolding or_error provider_client delete_sent
    provider_gone (found provider) provided h = type_gone provider provided _ refl h
    provider_gone (not_found e) provided h = absurd (cc)
    provider_gone (lookup_error e) provided h = absurd (cc)

  location_gone :
      (l : Lookup BackupLocation)
      → c.get_location backup.spec.metadata_location s.world ≡ l
      → ((location_client c (or_error l) >>= delete_sent c backup.name) s).0 ≡ none
      → IsMetadataGone c backup s.world
  unfolding or_error location_client delete_sent
  location_gone (found location) located h =
      provider_gone location located (c.get_provider location.provider_name s.world) refl h
  location_gone (not_found e) located h = absurd (cc)
  location_gone (lookup_error e) located h = absurd (cc)

  pub delete_metadata_backup-IsMetadataGone :
      (delete_metadata_backup c backup s).0 ≡ none → IsMetadataGone c backup s.world
  unfolding delete_metadata_backup fetch_meta_service_client
  delete_metadata_backup-IsMetadataGone h =
      elim (Bool-cases (same_state backup.status.state failed)) [
        | inl f ↦ was_failed (same_state-failed _ f)
        | inr lasting ↦
            elim (Bool-cases (int_lt (to_ordinal backup.status.stage) (to_ordinal resources))) [
              | inl early ↦ was_early (int_lt-is_early _ early)
              | inr late ↦
                  let h' = rw lasting at h in
                  let h'' = rw late at h' in
                  location_gone (c.get_location backup.spec.metadata_location s.world) refl h''
            ]
      ]
