-- ===== src/Backup/Metadata/Removal.antt =====
-- `deleteMetadataBackup` deletes metadata and does nothing else.
use mathlib.Core.Path.{subst}
use kahu.Base.Integer.{int_lt}
use kahu.Api.{Backup, resources, failed, same_state}
use kahu.Backup.Cluster.{Cluster, BackupLocation, Provider, Machine, ◌>>=◌}
use kahu.Backup.Status.{to_ordinal}
use kahu.Backup.Volumes.Removal.{OnlyDeletes, same, more, of_metadata}
use kahu.Backup.Metadata.{
  provider_client, location_client, fetch_meta_service_client, delete_sent, delete_metadata_backup,
}
use kahu.Base.{String, ◌≡◌, refl, inl, inr, ◌||◌, arith, Bool-cases, Result, ok, err}

module _ (c : Cluster) where
  provider_client-history :
      (r : Result Provider) (s : Machine c.World) → (provider_client c r s).1.history ≡ s.history
  unfolding provider_client
  provider_client-history (err e) s = refl
  provider_client-history (ok provider) s = ground arith

  location_client-history :
      (r : Result BackupLocation) (s : Machine c.World)
      → (location_client c r s).1.history ≡ s.history
  unfolding location_client
  location_client-history (err e) s = refl
  location_client-history (ok l) s = provider_client-history _ s

  fetch_meta_service_client-history :
      (location : String) (s : Machine c.World)
      → (fetch_meta_service_client c location s).1.history ≡ s.history
  unfolding fetch_meta_service_client
  fetch_meta_service_client-history location s = location_client-history _ s

  delete_sent-OnlyDeletes :
      (name : String) (r : Result String) (s : Machine c.World)
      → OnlyDeletes s.history (delete_sent c name r s).1.history
  unfolding delete_sent
  delete_sent-OnlyDeletes name (err e) s = same
  delete_sent-OnlyDeletes name (ok service) s = more same (of_metadata name)

  fetched_then_deleted :
      (backup : Backup) (s : Machine c.World)
      → OnlyDeletes s.history
          ((fetch_meta_service_client c backup.spec.metadata_location >>= delete_sent c backup.name)
            s).1.history
  fetched_then_deleted backup s =
      let (service, s') = fetch_meta_service_client c backup.spec.metadata_location s in
      subst (λ h. OnlyDeletes h (delete_sent c backup.name service s').1.history)
        (fetch_meta_service_client-history backup.spec.metadata_location s)
        (delete_sent-OnlyDeletes backup.name service s')

  pub delete_metadata_backup-OnlyDeletes :
      (backup : Backup) (s : Machine c.World)
      → OnlyDeletes s.history (delete_metadata_backup c backup s).1.history
  unfolding delete_metadata_backup
  delete_metadata_backup-OnlyDeletes backup s =
      elim (Bool-cases (
        same_state backup.status.state failed
        || int_lt (to_ordinal backup.status.stage) (to_ordinal resources))) [
          | inl t ↦ rw t same
          | inr f ↦ rw f (fetched_then_deleted backup s)
        ]
