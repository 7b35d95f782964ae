-- ===== src/Restore/Contents/Works.antt =====
-- Making the contents of a restore adds nothing to the history.
use kahu.Restore.Objects.{Claim, VolumeBackupContent, RestoreVolumeSpec, NewContent}
use kahu.Restore.Filters.{Indexer}
use kahu.Restore.Cluster.{Cluster, Action, Work}
use kahu.Restore.History.{Adding, Adding-pure, adding_rules}
use kahu.Restore.Contents.{construct_one, construct_each, construct_parsed, construct_contents}
use kahu.Base.{ℕ, String, List, [], ◌∷◌, Result, ok, err, Dict}

module _ (ix : Indexer) (c : Cluster ix.Cache) {P : Work → Type 0} where
  construct_one-Adding :
      (name : String) (vbc : VolumeBackupContent) (vs : List RestoreVolumeSpec) (time : ℕ)
      (rest : Action c (List NewContent))
      → Adding P rest
      → Adding P (construct_one ix c name vbc vs time rest)
  unfolding construct_one
  construct_one-Adding name vbc [] time rest h = h
  construct_one-Adding name vbc (v ∷ vs) time rest h = search adding_rules

  construct_each-Adding :
      (name : String) (claims : Dict Claim) (vbcs : List VolumeBackupContent)
      → Adding P (construct_each ix c name claims vbcs)
  unfolding construct_each
  construct_each-Adding name claims [] = Adding-pure _
  construct_each-Adding name claims (vbc ∷ vbcs) =
      let rest = construct_each-Adding name claims vbcs in
      search (adding_rules, construct_one-Adding)

  construct_parsed-Adding :
      (name : String) (claims : List Claim) (r : Result (List VolumeBackupContent))
      → Adding P (construct_parsed ix c name claims r)
  unfolding construct_parsed
  construct_parsed-Adding name claims (err e) = Adding-pure _
  construct_parsed-Adding name claims (ok vbcs) = search (adding_rules, construct_each-Adding)

  pub construct_contents-Adding :
      (name : String) (st : ix.Cache) (claims : List Claim)
      → Adding P (construct_contents ix c name st claims)
  unfolding construct_contents
  construct_contents-Adding name st claims = construct_parsed-Adding name claims _
