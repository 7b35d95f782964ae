-- ===== src/Restore/Volumes/Waits.antt =====
-- When the volume stage goes on, and where it crashes.
use kahu.Restore.Objects.{Restore, Claim, VolumeRestoreContent, completed}
use kahu.Restore.Filters.{Object, Indexer}
use kahu.Restore.Cluster.{Cluster, Machine, Work, wrote_status, wrote_metadata, nil_pointer}
use kahu.Restore.History.{Adds}
use kahu.Restore.Resolver.{sc_kind}
use kahu.Restore.Contents.{parse_restore_pvc}
use kahu.Restore.Volumes.{
  listed_classes, class_objects, apply_class, and_next, apply_all_classes, apply_listed,
  ensure_storage_class,
}
use kahu.Base.{
  ℕ, String, ◌≡◌, refl, ◌≢◌, ◌⊎◌, Bool, ◌&&◌, Option, none, some, List, [], ◌∷◌, ◌++◌, leb, length,
  ok, at_key, count,
}

-- The progress of every volume of the contents.
abbrev all_progress : List VolumeRestoreContent → List ℕ
all_progress [] = []
all_progress (v ∷ vs) = v.progress ++ all_progress vs

abbrev is_100 : ℕ → Bool
is_100 n = leb n 100 && leb 100 n

-- A write that does not say that the volumes are restored.
abbrev pub IsUnmarked : Work → Type 0
IsUnmarked (wrote_status r) = r.status.state ≢ completed
IsUnmarked (wrote_metadata r) =
    at_key r.object_meta.annotations "kahu.io/volume-restore-completed" ≡ none
IsUnmarked _ = Unit

-- The cache has no claim to restore, or the contents that the API lists have as many volumes with a
-- progress of 100 as the cache has claims.
pub data IsReady (ix : Indexer) (c : Cluster ix.Cache) (name : String) (st : Option ix.Cache)
    (w : c.World) : Type 0 where
  no_claim : parse_restore_pvc ix c st ≡ ok [] → IsReady ix c name st w
  all_restored :
      (claims : List Claim) (vs : List VolumeRestoreContent)
      → parse_restore_pvc ix c st ≡ ok claims
      → (c.list_contents name w).0 ≡ ok vs
      → count is_100 (all_progress vs) ≡ length claims
      → IsReady ix c name st w

module _ (ix : Indexer) (c : Cluster ix.Cache) (restore : Restore) (st : Option ix.Cache)
    (s : Machine c.World ix.Cache) where
  abbrev Waits : Machine c.World ix.Cache → Type 0
  Waits s' = Adds IsUnmarked s.history s'.history ⊎ IsReady ix c restore.name st s.world

-- A claim without a storage class whose turn comes first makes the controller read a nil pointer,
-- where the storage classes of the cache can be listed and converted.
pub ensure_storage_class-nil_pointer :
    (ix : Indexer) (c : Cluster ix.Cache) (st : ix.Cache) (claim : Claim) (claims : List Claim)
    (s : Machine c.World ix.Cache) {os classes : List Object}
    → claim.storage_class_name ≡ none
    → ix.by_kind sc_kind st ≡ ok os
    → listed_classes c.to_storage_class os ≡ ok classes
    → ensure_storage_class ix c st (claim ∷ claims) s ≡ (some nil_pointer, s)
unfolding ensure_storage_class class_objects apply_listed apply_all_classes apply_class and_next
ensure_storage_class-nil_pointer ix c st claim claims s unnamed listed converted =
    rw listed (rw converted (rw unnamed refl))
