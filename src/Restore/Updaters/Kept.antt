-- ===== src/Restore/Updaters/Kept.antt =====
-- The status of the restore that an update or a patch returns.
use kahu.Restore.Objects.{Restore}
use kahu.Restore.Cluster.{Cluster, Work, wrote_status, wrote_metadata, call, log}
use kahu.Restore.History.{same, Ensures, Ensures-bind, Adding-bind, Ensures-pure, Adding-log}
use kahu.Restore.Updaters.{
  Returned, revised, status_sent, update_restore_status, patch_sent, patch_merged, patch_restore,
  annotate_unless, annotate_restore,
}
use kahu.Restore.Updaters.Writes.{revise-Adding}
use kahu.Base.{String, ◌≡◌, refl, ◌∙◌, Option, none, some, Error, Result, ok, err, ◌>>=◌}

-- The API server keeps the status that it is sent, and a patch of other parts leaves it.
pub record KeepsStatus {Cache : Type 0} (c : Cluster Cache) : Type 0 where
  pub status_kept :
      (restore : Restore) (w : c.World) → (c.send_status restore w).0.0.status ≡ restore.status
  pub patch_kept :
      (restore updated : Restore) (patch : c.Patch) (w : c.World)
      → c.merge_patch restore updated ≡ ok patch
      → (c.send_patch restore.name patch w).0.0.status ≡ updated.status

abbrev Of : Restore → Returned → Type 0
Of restore r = r.0.status ≡ restore.status

revised-Of :
    {Cache : Type 0} (c : Cluster Cache) (restore updated : Restore) (e : Option Error)
    → updated.status ≡ restore.status
    → Of restore (revised c updated e)
unfolding revised
revised-Of c restore updated (some e) h = h
revised-Of c restore updated none h = h

module _ {Cache : Type 0} (c : Cluster Cache) (kept : KeepsStatus c) {P : Work → Type 0} where
  status_sent-Ensures :
      (restore : Restore) (r : Restore × Option Error)
      → r.0.status ≡ restore.status
      → Ensures P (Of restore) (status_sent c restore r)
  unfolding status_sent
  status_sent-Ensures restore (updated, some e) h = Ensures-pure _ refl
  status_sent-Ensures restore (updated, none) h =
      Adding-bind _ _ (revise-Adding c updated)
        (λ e. Ensures-pure (revised c updated e) (revised-Of c restore updated e h))

  pub update_restore_status-Ensures :
      (restore : Restore)
      → P (wrote_status restore)
      → Ensures P (λ r. r.0.status ≡ restore.status) (update_restore_status c restore)
  unfolding update_restore_status
  update_restore_status-Ensures restore p =
      let sent = call (c.send_status restore) in
      Adding-bind (log (wrote_status restore)) (λ _. sent >>= status_sent c restore)
        (Adding-log _ p)
        (λ _.
          Ensures-bind (λ r. r.0.status ≡ restore.status) sent (status_sent c restore)
            (record { at = λ s. (same, kept.status_kept restore s.world) })
            (status_sent-Ensures restore))

  patch_sent-Ensures :
      (restore : Restore) (r : Restore × Option Error)
      → r.0.status ≡ restore.status
      → Ensures P (Of restore) (patch_sent c restore r)
  unfolding patch_sent
  patch_sent-Ensures restore (updated, some e) h = Ensures-pure _ refl
  patch_sent-Ensures restore (updated, none) h =
      Adding-bind _ _ (revise-Adding c updated)
        (λ e. Ensures-pure (revised c updated e) (revised-Of c restore updated e h))

  patch_merged-Ensures :
      (restore updated : Restore) (r : Result c.Patch)
      → c.merge_patch restore updated ≡ r
      → P (wrote_metadata updated)
      → updated.status ≡ restore.status
      → Ensures P (Of restore) (patch_merged c restore updated r)
  unfolding patch_merged
  patch_merged-Ensures restore updated (err e) h p q = Ensures-pure _ refl
  patch_merged-Ensures restore updated (ok patch) h p q =
      let sent = call (c.send_patch restore.name patch) in
      Adding-bind (log (wrote_metadata updated)) (λ _. sent >>= patch_sent c restore)
        (Adding-log _ p)
        (λ _.
          Ensures-bind (λ r. r.0.status ≡ restore.status) sent (patch_sent c restore)
            (record { at = λ s. (same, kept.patch_kept restore updated patch s.world h ∙ q) })
            (patch_sent-Ensures restore))

  pub patch_restore-Ensures :
      (restore updated : Restore)
      → P (wrote_metadata updated)
      → updated.status ≡ restore.status
      → Ensures P (λ r. r.0.status ≡ restore.status) (patch_restore c restore updated)
  unfolding patch_restore
  patch_restore-Ensures restore updated p q = patch_merged-Ensures restore updated _ refl p q

  annotate_unless-Ensures :
      (annotation value : String) (restore : Restore) (present : Option String)
      → ((r : Restore) → P (wrote_metadata r))
      → Ensures P (Of restore) (annotate_unless c annotation value restore present)
  unfolding annotate_unless
  annotate_unless-Ensures annotation value restore (some v) p = Ensures-pure _ refl
  annotate_unless-Ensures annotation value restore none p =
      patch_restore-Ensures restore _ (p _) refl

  pub annotate_restore-Ensures :
      (annotation value : String) (restore : Restore)
      → ((r : Restore) → P (wrote_metadata r))
      → Ensures P (λ r. r.0.status ≡ restore.status) (annotate_restore c annotation value restore)
  unfolding annotate_restore
  annotate_restore-Ensures annotation value restore p =
      annotate_unless-Ensures annotation value restore _ p
