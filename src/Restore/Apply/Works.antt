-- ===== src/Restore/Apply/Works.antt =====
-- What applying an object, and deleting a restored one, add to the history.
use kahu.Backup.Cluster.{Lookup, found, not_found, lookup_error}
use kahu.Restore.Objects.{Restore, RestoreResource}
use kahu.Restore.Filters.{Object}
use kahu.Restore.Cluster.{Cluster, Work, Fault, Existing, made_namespace, applied, deleted_resource}
use kahu.Restore.History.{Adding, Adding-pure, adding_rules}
use kahu.Restore.Apply.{
  delete_restored_resource, cleanup_discovered, cleanup_found, create_missing, ensure_namespace,
  create_with_hooks, create_plain, create_by_kind, unless_exists, preprocessed, discovered,
  apply_resource,
}
use kahu.Base.{String, Option, none, some, Error, Result, ok, err}

module _ {Cache : Type 0} (c : Cluster Cache) {P : Work → Type 0} where
  cleanup_discovered-Adding :
      (resource : RestoreResource) (restore_name : String) (r : Result (Unit {0}))
      → P (deleted_resource resource)
      → Adding P (cleanup_discovered c resource restore_name r)
  unfolding cleanup_discovered cleanup_found
  cleanup_discovered-Adding resource restore_name (err e) p = Adding-pure _
  cleanup_discovered-Adding resource restore_name (ok _) p = search adding_rules

  pub delete_restored_resource-Adding :
      (resource : RestoreResource) (restore_name : String)
      → P (deleted_resource resource)
      → Adding P (delete_restored_resource c resource restore_name)
  unfolding delete_restored_resource
  delete_restored_resource-Adding resource restore_name p =
      cleanup_discovered-Adding resource restore_name _ p

  create_missing-Adding :
      (ns : String) (n : Lookup (Unit {0}))
      → P (made_namespace ns)
      → Adding P (create_missing c ns n)
  unfolding create_missing
  create_missing-Adding ns (found n) p = Adding-pure _
  create_missing-Adding ns (not_found e) p = search adding_rules
  create_missing-Adding ns (lookup_error e) p = search adding_rules

  pub ensure_namespace-Adding :
      (ns : String) → P (made_namespace ns) → Adding P (ensure_namespace c ns)
  unfolding ensure_namespace
  ensure_namespace-Adding ns p = search (adding_rules, create_missing-Adding)

  create_with_hooks-Adding :
      (handler : Object → Restore → c.World → Option Error × c.World) (o : Object)
      (restore : Option Restore)
      → P (applied o)
      → Adding P (create_with_hooks c handler o restore)
  unfolding create_with_hooks
  create_with_hooks-Adding handler o none p = Adding-pure _
  create_with_hooks-Adding handler o (some restore) p = search adding_rules

  create_by_kind-Adding :
      (o : Object) (restore : Option Restore)
      → P (applied o)
      → Adding P (create_by_kind c o restore)
  unfolding create_by_kind create_plain
  create_by_kind-Adding o restore p = search (adding_rules, create_with_hooks-Adding)

  unless_exists-Adding :
      (o : Object) (restore : Option Restore) (existing : Lookup Existing)
      → P (applied o)
      → Adding P (unless_exists c o restore existing)
  unfolding unless_exists
  unless_exists-Adding o restore (found e) p = Adding-pure _
  unless_exists-Adding o restore (not_found e) p = create_by_kind-Adding o restore p
  unless_exists-Adding o restore (lookup_error e) p = create_by_kind-Adding o restore p

  preprocessed-Adding :
      (o : Object) (restore : Option Restore) (fault : Option Fault)
      → P (applied o)
      → Adding P (preprocessed c o restore fault)
  unfolding preprocessed
  preprocessed-Adding o restore (some fault) p = Adding-pure _
  preprocessed-Adding o restore none p = search (adding_rules, unless_exists-Adding)

  discovered-Adding :
      (o : Object) (restore : Option Restore) (r : Result (Unit {0}))
      → P (made_namespace o.namespace)
      → P (applied o)
      → Adding P (discovered c o restore r)
  unfolding discovered
  discovered-Adding o restore (err e) n p = Adding-pure _
  discovered-Adding o restore (ok _) n p =
      search (adding_rules, ensure_namespace-Adding, preprocessed-Adding)

  pub apply_resource-Adding :
      (o : Object) (restore : Option Restore)
      → P (made_namespace o.namespace)
      → P (applied o)
      → Adding P (apply_resource c o restore)
  unfolding apply_resource
  apply_resource-Adding o restore n p = discovered-Adding o restore _ n p
