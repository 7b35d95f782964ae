-- ===== src/Restore/Updaters/Writes.antt =====
-- What the writes of a restore add to the history, and the status that they return.
use kahu.Restore.Objects.{Restore}
use kahu.Restore.Cluster.{Cluster, Machine, Work, wrote_status, wrote_metadata}
use kahu.Restore.History.{same, Adding, Adding-pure, adding_rules}
use kahu.Restore.Updaters.{
  revise, status_sent, update_restore_status, patch_sent, patch_merged, patch_restore,
}
use kahu.Base.{◌≡◌, refl, Option, none, some, ◌∷◌, Error, Result, ok, err}

module _ {Cache : Type 0} (c : Cluster Cache) {P : Work → Type 0} where
  pub revise-Adding : (restore : Restore) → Adding P (revise c restore)
  unfolding revise
  revise-Adding restore = record { at = λ s. (same, tt) }

  status_sent-Adding :
      (restore : Restore) (r : Restore × Option Error) → Adding P (status_sent c restore r)
  unfolding status_sent
  status_sent-Adding restore (updated, some e) = Adding-pure _
  status_sent-Adding restore (updated, none) = search (adding_rules, revise-Adding)

  pub update_restore_status-Adding :
      (restore : Restore) → P (wrote_status restore) → Adding P (update_restore_status c restore)
  unfolding update_restore_status
  update_restore_status-Adding restore p = search (adding_rules, status_sent-Adding)

  patch_sent-Adding :
      (restore : Restore) (r : Restore × Option Error) → Adding P (patch_sent c restore r)
  unfolding patch_sent
  patch_sent-Adding restore (updated, some e) = Adding-pure _
  patch_sent-Adding restore (updated, none) = search (adding_rules, revise-Adding)

  patch_merged-Adding :
      (restore updated : Restore) (r : Result c.Patch)
      → P (wrote_metadata updated)
      → Adding P (patch_merged c restore updated r)
  unfolding patch_merged
  patch_merged-Adding restore updated (err e) p = Adding-pure _
  patch_merged-Adding restore updated (ok patch) p = search (adding_rules, patch_sent-Adding)

  pub patch_restore-Adding :
      (restore updated : Restore)
      → P (wrote_metadata updated)
      → Adding P (patch_restore c restore updated)
  unfolding patch_restore
  patch_restore-Adding restore updated p = patch_merged-Adding restore updated _ p

module _ {Cache : Type 0} (c : Cluster Cache) where
  sent-history :
      (restore : Restore) (r : Restore × Option Error) (s : Machine c.World Cache)
      → (status_sent c restore r s).1.history ≡ s.history
  unfolding status_sent revise
  sent-history restore (updated, some e) s = refl
  sent-history restore (updated, none) s = refl

  pub update_restore_status-history :
      (restore : Restore) (s : Machine c.World Cache)
      → (update_restore_status c restore s).1.history ≡ wrote_status restore ∷ s.history
  unfolding update_restore_status
  update_restore_status-history restore s = sent-history restore _ _
