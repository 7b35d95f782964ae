-- ===== src/Restore/Populate/Untimed.antt =====
-- Fetching the objects of a restore writes no completion time, and leaves the stage.
use kahu.Restore.Objects.{Restore, RestoreStage}
use kahu.Restore.Filters.{Indexer}
use kahu.Restore.Cluster.{Cluster, Action, Fault, raised, nil_pointer, stack_overflow}
use kahu.Restore.History.{same, Ensures, Ensures-bind, Adding-bind, Ensures-pure, Adding-ask}
use kahu.Restore.Updaters.{Returned}
use kahu.Restore.Updaters.Kept.{KeepsStatus}
use kahu.Restore.Untimed.{Untimed, IsAt, update-Stays}
use kahu.Restore.Content.{BackupInfo}
use kahu.Restore.Content.Works.{fetch_backup_content-Adding}
use kahu.Restore.Populate.{
  given_up, give_up, with_resources, keep_objects, patch_objects, mutated, resolved, filtered,
  cloned, content_fetched, info_fetched, fetch_resources, unless_fetched,
  populate_restore_resources,
}
use kahu.Base.{ℕ, String, Option, none, some, Error, Result, ok, err}

module _ (ix : Indexer) (c : Cluster ix.Cache) (stack : ℕ) (kept : KeepsStatus c)
    (stage : RestoreStage) where
  open ix use {Cache}

  abbrev Stays : Action c Returned → Type 0
  Stays act = Ensures Untimed (λ (r : Returned). IsAt stage r.0) act

  given_up-Stays :
      (what : String) (r : Returned) → IsAt stage r.0 → Stays (given_up ix c stack what r)
  unfolding given_up
  given_up-Stays what (restore, some fault) h = Ensures-pure _ h
  given_up-Stays what (restore, none) h = Ensures-pure _ h

  give_up-Stays :
      (reason what : String) (restore : Restore)
      → IsAt stage restore
      → Stays (give_up ix c stack reason what restore)
  unfolding give_up
  give_up-Stays reason what restore h =
      Ensures-bind _ _ _ (update-Stays c kept stage _ h) (given_up-Stays what)

  keep_objects-Stays :
      (st : Cache) (r : Returned) → IsAt stage r.0 → Stays (keep_objects ix c stack st r)
  unfolding keep_objects
  keep_objects-Stays st r h = record { at = λ s. (same, h) }

  patch_objects-Stays :
      (restore : Restore) (st : Cache)
      → IsAt stage restore
      → Stays (patch_objects ix c stack restore st)
  unfolding patch_objects with_resources
  patch_objects-Stays restore st h =
      Ensures-bind _ _ _ (update-Stays c kept stage (with_resources (ix.list st) restore) h)
        (keep_objects-Stays st)

  mutated-Stays :
      (restore : Restore) (r : Cache × Option Error)
      → IsAt stage restore
      → Stays (mutated ix c stack restore r)
  unfolding mutated
  mutated-Stays restore (st, some e) h = give_up-Stays _ _ restore h
  mutated-Stays restore (st, none) h = patch_objects-Stays restore st h

  resolved-Stays :
      (restore : Restore) (r : Cache × Option Fault)
      → IsAt stage restore
      → Stays (resolved ix c stack restore r)
  unfolding resolved
  resolved-Stays restore (st, some (raised e)) h = give_up-Stays _ _ restore h
  resolved-Stays restore (st, some nil_pointer) h = Ensures-pure _ h
  resolved-Stays restore (st, some stack_overflow) h = Ensures-pure _ h
  resolved-Stays restore (st, none) h = mutated-Stays restore _ h

  filtered-Stays :
      (restore : Restore) (r : Cache × Option Error)
      → IsAt stage restore
      → Stays (filtered ix c stack restore r)
  unfolding filtered
  filtered-Stays restore (st, some e) h = give_up-Stays _ _ restore h
  filtered-Stays restore (st, none) h = record { at = λ s. (resolved-Stays restore _ h).at s }

  cloned-Stays :
      (restore : Restore) (r : Cache × Option Error)
      → IsAt stage restore
      → Stays (cloned ix c stack restore r)
  unfolding cloned
  cloned-Stays restore (st, some e) h = give_up-Stays _ _ restore h
  cloned-Stays restore (st, none) h = filtered-Stays restore _ h

  content_fetched-Stays :
      (restore : Restore) (e : Option Error)
      → IsAt stage restore
      → Stays (content_fetched ix c stack restore e)
  unfolding content_fetched
  content_fetched-Stays restore (some e) h = give_up-Stays _ _ restore h
  content_fetched-Stays restore none h = record { at = λ s. (cloned-Stays restore _ h).at s }

  info_fetched-Stays :
      (restore : Restore) (r : Result BackupInfo)
      → IsAt stage restore
      → Stays (info_fetched ix c stack restore r)
  unfolding info_fetched
  info_fetched-Stays restore (err e) h = give_up-Stays _ _ restore h
  info_fetched-Stays restore (ok info) h =
      Adding-bind _ _ (fetch_backup_content-Adding ix c info)
        (λ e. content_fetched-Stays restore e h)

  unless_fetched-Stays :
      (restore : Restore) (o : Option Cache)
      → IsAt stage restore
      → Stays (unless_fetched ix c stack restore o)
  unfolding unless_fetched fetch_resources
  unless_fetched-Stays restore (some st) h = Ensures-pure _ h
  unless_fetched-Stays restore none h =
      Adding-bind _ _ (Adding-ask _) (λ r. info_fetched-Stays restore r h)

  pub populate_restore_resources-Stays :
      (restore : Restore)
      → IsAt stage restore
      → Ensures Untimed
          (λ (r : Returned). IsAt stage r.0)
          (populate_restore_resources ix c stack restore)
  unfolding populate_restore_resources
  populate_restore_resources-Stays restore h = record {
    at = λ s. (unless_fetched-Stays restore s.resolve_objects h).at s;
  }
