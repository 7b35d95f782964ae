-- ===== src/Restore/Untimed.antt =====
-- Runs that write no completion time.
use kahu.Restore.Objects.{Restore, RestoreStage}
use kahu.Restore.Cluster.{Cluster, Work, wrote_status}
use kahu.Restore.History.{Ensures, Ensures-weaken}
use kahu.Restore.Updaters.{Returned, update_restore_status, patch_restore, annotate_restore}
use kahu.Restore.Updaters.Kept.{
  KeepsStatus, update_restore_status-Ensures, patch_restore-Ensures, annotate_restore-Ensures,
}
use kahu.Base.{String, ◌≡◌, ap, ◌∙◌, none}

-- A status that is written has no completion time.
abbrev pub Untimed : Work → Type 0
Untimed (wrote_status r) = r.status.completion_timestamp ≡ none
Untimed _ = Unit

-- The stage of a restore, which has no completion time.
abbrev pub IsAt : RestoreStage → Restore → Type 0
IsAt stage r = (r.status.stage ≡ stage) × (r.status.completion_timestamp ≡ none)

of_status :
    {stage : RestoreStage} (a b : Restore) → a.status ≡ b.status → IsAt stage b → IsAt stage a
of_status a b e (s, t) = (ap (λ st. st.stage) e ∙ s, ap (λ st. st.completion_timestamp) e ∙ t)

module _ {Cache : Type 0} (c : Cluster Cache) (kept : KeepsStatus c) (stage : RestoreStage) where
  pub update-Stays :
      (restore : Restore)
      → IsAt stage restore
      → Ensures Untimed (λ (r : Returned). IsAt stage r.0) (update_restore_status c restore)
  update-Stays restore h =
      Ensures-weaken _ (update_restore_status-Ensures c kept restore h.1)
        (λ r e. of_status r.0 restore e h)

  pub patch-Stays :
      (restore updated : Restore)
      → updated.status ≡ restore.status
      → IsAt stage restore
      → Ensures Untimed (λ (r : Returned). IsAt stage r.0) (patch_restore c restore updated)
  patch-Stays restore updated q h =
      Ensures-weaken _ (patch_restore-Ensures c kept restore updated tt q)
        (λ r e. of_status r.0 restore e h)

  pub annotate-Stays :
      (annotation value : String) (restore : Restore)
      → IsAt stage restore
      → Ensures Untimed
          (λ (r : Returned). IsAt stage r.0)
          (annotate_restore c annotation value restore)
  annotate-Stays annotation value restore h =
      Ensures-weaken _ (annotate_restore-Ensures c kept annotation value restore (λ r. tt))
        (λ r e. of_status r.0 restore e h)
