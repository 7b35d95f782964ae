-- ===== src/Backup/Collect/Examples.antt =====
-- Runs of the collection of a backup's resources.
use kahu.Api.{Backup, BackupSpec, empty_backup, empty_spec}
use kahu.Unstructured.{same_key, is_unstructured, is_pointer}
use kahu.Utils.Kinds.{pvc_kind}
use kahu.Utils.Metadata.{contains_annotation}
use kahu.Backup.Objects.{typed, group_version}
use kahu.Backup.Objects.Sample.{list_cache, api, claim, claims}
use kahu.Backup.Collect.Kinds.{is_wanted, filter_resources-wanted}
use kahu.Backup.Collect.Taken.{IsNamespace, IsTaken, collect_sound}
use kahu.Backup.Collect.Names.{is_resource_need_backup_whole_kinds, is_whole_kind}
use kahu.Backup.Collect.{
  filter_resources, collect, is_resource_need_backup, resources_filtered, with_resources,
  filtered_api_resources, filter_by_backup, filter_by_annotation, filter_by_include,
  filter_by_exclude, excluded_kinds, collect_namespaces, namespaces_listed, choose_namespaces,
  is_namespace_chosen, add_namespaces, converted_or_nil, and_next, with_selector, selector_of,
  collect_all, add_collected, collect_namespace_resources, with_listed, joined, add_objects,
  with_context, is_selected, matches_name,
}
use kahu.Base.{
  ◌≡◌, refl, ◌⊎◌, true, false, none, [], ◌∷◌, keep, any, all, contains, at_key, put, Member, here,
}

-- A backup of the claims in the namespace `shop`.
abbrev a_spec : BackupSpec
a_spec = record empty_spec {
  include_namespaces = "shop" ∷ [];
  include_resources = record { name = "data"; kind = pvc_kind; is_regex = false } ∷ [];
}

abbrev a_backup : Backup
a_backup = record empty_backup { spec = a_spec }

filter_resources-wanted_example :
    filter_resources (λ s. s ∷ []) a_backup (claims ∷ [])
    ≡ keep (λ r. is_wanted (λ s. s ∷ []) a_backup r.kind) (claims ∷ [])
filter_resources-wanted_example = filter_resources-wanted (λ s. s ∷ []) a_backup (claims ∷ [])

run_takes :
    ((collect list_cache api "" a_backup []).1 ≡ none)
    × Member claim (collect list_cache api "" a_backup []).0
unfolding collect resources_filtered with_resources filtered_api_resources filter_resources
    filter_by_backup filter_by_annotation filter_by_include filter_by_exclude excluded_kinds
    collect_namespaces namespaces_listed choose_namespaces is_namespace_chosen add_namespaces
    converted_or_nil and_next with_selector selector_of collect_all add_collected
    collect_namespace_resources with_listed joined add_objects with_context is_resource_need_backup
    is_selected matches_name typed group_version same_key is_unstructured is_pointer keep any
    contains put contains_annotation at_key
run_takes = (refl, here)

collect_sound_example :
    IsNamespace list_cache api "" a_spec claim ⊎ IsTaken list_cache api "" a_backup claim
collect_sound_example =
    collect_sound list_cache api "" (λ ns. (ns, refl, refl, refl)) a_backup run_takes.0 claim
      run_takes.1

-- A backup of all claims.
abbrev whole_spec : BackupSpec
whole_spec = record empty_spec {
  include_resources = record { name = ""; kind = pvc_kind; is_regex = false } ∷ [];
}

whole : all is_whole_kind whole_spec.include_resources ≡ true
unfolding all is_whole_kind
whole = refl

is_resource_need_backup_whole_kinds_example :
    is_resource_need_backup (λ pattern. none) whole_spec claim ≡ false
is_resource_need_backup_whole_kinds_example =
    is_resource_need_backup_whole_kinds (λ pattern. none) whole_spec claim refl whole refl
