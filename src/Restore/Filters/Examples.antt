-- ===== src/Restore/Filters/Examples.antt =====
-- A cache of three objects, and what the filters leave of it.
use kahu.Api.{ResourceSpec}
use kahu.Restore.Sample.{list_indexer, pod, spec, restore_spec}
use kahu.Restore.Filters.{
  Object, same_key, namespace_keys, excluded_namespaces, construct_filter_handler,
}
use kahu.Restore.Filters.Stages.{excluded_namespaces_lem}
use kahu.Restore.Filters.Sound.{is_rejected, construct_filter_handler-clean}
use kahu.Base.{◌≡◌, refl, true, false, none, List, [], ◌∷◌, keep, any, contains}

abbrev three : List Object
three = pod "1" "shop" "web" ∷ pod "2" "test" "db" ∷ pod "3" "bank" "db" ∷ []

abbrev web : List ResourceSpec
web = spec "web" true ∷ []

excluded_namespaces_lem_example :
    contains (excluded_namespaces list_indexer restore_spec three) "bank"
    ≡ contains restore_spec.exclude_namespaces "bank"
excluded_namespaces_lem_example = excluded_namespaces_lem list_indexer restore_spec three "bank"

-- The object in the namespace `bank`, which was not asked for, is left.
run_filters :
    construct_filter_handler list_indexer restore_spec three ≡ (pod "3" "bank" "db" ∷ [], none)
unfolding construct_filter_handler contains keep namespace_keys same_key any
run_filters = refl

construct_filter_handler-clean_example :
    any (is_rejected list_indexer restore_spec) (pod "3" "bank" "db" ∷ []) ≡ false
construct_filter_handler-clean_example =
    construct_filter_handler-clean list_indexer restore_spec three run_filters
