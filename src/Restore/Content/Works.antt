-- ===== src/Restore/Content/Works.antt =====
-- Fetching the content of a backup adds nothing to the history.
use kahu.Restore.Filters.{Indexer}
use kahu.Restore.Cluster.{Cluster, Work, Stream}
use kahu.Restore.History.{same, Adding, Adding-pure, adding_rules}
use kahu.Restore.Content.{
  BackupInfo, dial_service, fetch_meta_service_client, fill_cache, content_streamed, with_client,
  fetch_backup_content,
}
use kahu.Base.{String, Option, none, some, Error, Result, ok, err}

module _ (ix : Indexer) (c : Cluster ix.Cache) {P : Work → Type 0} where
  dial_service-Adding : (service : Option String) → Adding P (dial_service ix c service)
  unfolding dial_service
  dial_service-Adding none = Adding-pure _
  dial_service-Adding (some service) = search adding_rules

  fill_cache-Adding : (stream : Stream) → Adding P (fill_cache ix c stream)
  unfolding fill_cache
  fill_cache-Adding stream = record { at = λ s. (same, tt) }

  content_streamed-Adding : (e : Option Error) → Adding P (content_streamed ix c e)
  unfolding content_streamed
  content_streamed-Adding (some e) = Adding-pure _
  content_streamed-Adding none = search (adding_rules, fill_cache-Adding)

  with_client-Adding : (info : BackupInfo) (r : Result String) → Adding P (with_client ix c info r)
  unfolding with_client
  with_client-Adding info (err e) = Adding-pure _
  with_client-Adding info (ok service) = search (adding_rules, content_streamed-Adding)

  pub fetch_backup_content-Adding : (info : BackupInfo) → Adding P (fetch_backup_content ix c info)
  unfolding fetch_backup_content fetch_meta_service_client
  fetch_backup_content-Adding info = search (adding_rules, dial_service-Adding, with_client-Adding)
