-- ===== src/Restore/Volumes/Works.antt =====
-- What the calls of the volume stage add to the history: no status with a completion time.
use kahu.Restore.Objects.{Claim, NewContent}
use kahu.Restore.Filters.{Object, Indexer}
use kahu.Restore.Cluster.{Cluster, Action, Fault}
use kahu.Restore.History.{Adding, Adding-pure, adding_rules}
use kahu.Restore.Untimed.{Untimed}
use kahu.Restore.Apply.Works.{ensure_namespace-Adding, apply_resource-Adding}
use kahu.Restore.Volumes.{
  and_next, ensure_namespaces, class_applied, apply_classes, apply_class, class_found,
  apply_all_classes, apply_listed, ensure_contents,
}
use kahu.Base.{String, Bool, true, false, Option, none, some, List, [], ◌∷◌, Result, ok, err}

module _ (ix : Indexer) (c : Cluster ix.Cache) where
  and_next-Adding :
      (rest : Action c (Option Fault)) (fault : Option Fault)
      → Adding Untimed rest
      → Adding Untimed (and_next ix c rest fault)
  unfolding and_next
  and_next-Adding rest (some fault) h = Adding-pure _
  and_next-Adding rest none h = h

  pub ensure_namespaces-Adding : (nss : List String) → Adding Untimed (ensure_namespaces ix c nss)
  unfolding ensure_namespaces
  ensure_namespaces-Adding [] = Adding-pure _
  ensure_namespaces-Adding (ns ∷ nss) =
      let rest = ensure_namespaces-Adding nss in
      search (adding_rules, ensure_namespace-Adding, and_next-Adding)

  class_applied-Adding :
      (rest : Action c (Option Fault)) (fault : Option Fault)
      → Adding Untimed rest
      → Adding Untimed (class_applied ix c rest fault)
  unfolding class_applied
  class_applied-Adding rest (some fault) h = Adding-pure _
  class_applied-Adding rest none h = h

  apply_classes-Adding :
      (class : String) (os : List Object) → Adding Untimed (apply_classes ix c class os)
  unfolding apply_classes
  apply_classes-Adding class [] = Adding-pure _
  apply_classes-Adding class (o ∷ os) =
      let rest = apply_classes-Adding class os in
      search (adding_rules, apply_resource-Adding, class_applied-Adding)

  class_found-Adding : (class : String) (b : Bool) → Adding Untimed (class_found ix c class b)
  unfolding class_found
  class_found-Adding class true = Adding-pure _
  class_found-Adding class false = Adding-pure _

  apply_class-Adding :
      (classes : List Object) (name : Option String)
      → Adding Untimed (apply_class ix c classes name)
  unfolding apply_class
  apply_class-Adding classes none = Adding-pure _
  apply_class-Adding classes (some class) =
      search (adding_rules, apply_classes-Adding, and_next-Adding, class_found-Adding)

  apply_all_classes-Adding :
      (classes : List Object) (claims : List Claim)
      → Adding Untimed (apply_all_classes ix c classes claims)
  unfolding apply_all_classes
  apply_all_classes-Adding classes [] = Adding-pure _
  apply_all_classes-Adding classes (claim ∷ claims) =
      let rest = apply_all_classes-Adding classes claims in
      search (adding_rules, apply_class-Adding, and_next-Adding)

  pub apply_listed-Adding :
      (claims : List Claim) (r : Result (List Object)) → Adding Untimed (apply_listed ix c claims r)
  unfolding apply_listed
  apply_listed-Adding claims (err e) = Adding-pure _
  apply_listed-Adding claims (ok classes) = apply_all_classes-Adding classes claims

  pub ensure_contents-Adding : (vs : List NewContent) → Adding Untimed (ensure_contents ix c vs)
  unfolding ensure_contents
  ensure_contents-Adding [] = Adding-pure _
  ensure_contents-Adding (v ∷ vs) =
      let rest = ensure_contents-Adding vs in search (adding_rules, and_next-Adding)
