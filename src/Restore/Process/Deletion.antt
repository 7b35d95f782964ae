-- ===== src/Restore/Process/Deletion.antt =====
-- When `deleteRestore` gives a restore up.
use kahu.Restore.Objects.{Restore}
use kahu.Restore.Filters.{Indexer}
use kahu.Restore.Cluster.{Cluster, Machine, Action, Work, wrote_metadata}
use kahu.Restore.History.{Adds, Adding}
use kahu.Restore.Process.Tidied.{IsTidied}
use kahu.Restore.Process.{remove_volume_restore}
use kahu.Base.{ℕ, ◌≡◌, ◌⊎◌, none, [], ok}

-- A deletion, a mark, or a write that leaves the restore its finalizers.
abbrev pub KeepsFinalizers : Restore → Work → Type 0
KeepsFinalizers restore (wrote_metadata r) =
    r.object_meta.finalizers ≡ restore.object_meta.finalizers
KeepsFinalizers restore _ = Unit

module _ (ix : Indexer) (c : Cluster ix.Cache) (stack : ℕ) (restore : Restore) where
  open c use {World, list_contents}

  abbrev Keeping : {A : Type 0} → Action c A → Type 0
  Keeping act = Adding (KeepsFinalizers restore) act

  -- The steps of a deletion that came to its end: all contents were asked to go, the restored
  -- resources are kept or their deletion was tried, and the API lists no content any more.
  pub record IsCleanedUp (s : Machine World ix.Cache) : Type 0 where
    pub after_contents : Machine World ix.Cache
    pub contents_gone : remove_volume_restore ix c stack restore s ≡ (none, after_contents)
    pub after_cleanup : Machine World ix.Cache
    pub cleaned : IsTidied ix c stack restore after_contents after_cleanup
    pub no_content : (list_contents restore.name after_cleanup.world).0 ≡ ok []

  module _ (s : Machine World ix.Cache) where
    abbrev Ends : Machine World ix.Cache → Type 0
    Ends after = Adds (KeepsFinalizers restore) s.history after.history ⊎ IsCleanedUp s
