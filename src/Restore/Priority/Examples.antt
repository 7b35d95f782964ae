-- ===== src/Restore/Priority/Examples.antt =====
-- An order of three objects.
use kahu.Restore.Filters.{Object}
use kahu.Restore.Sample.{pod}
use kahu.Restore.Priority.{
  prioritise_resources, prioritise_by, sorted_by, canonical_name, default_restore_priorities,
}
use kahu.Restore.Priority.Kinds.{separates_kinds, prioritise_resources-count}
use kahu.Restore.Priority.Ranks.{rank, rises_from, prioritise_resources-rises}
use kahu.Base.{String, ◌≡◌, refl, true, List, [], ◌∷◌, map, ◌==◌, keep, all, contains, count}

abbrev of_kind : String → Object
of_kind kind = record (pod "9" "shop" "web") { kind = kind }

abbrev three_kinds : List Object
three_kinds = of_kind "Ingress" ∷ of_kind "Deployment" ∷ of_kind "Secret" ∷ []

separate : separates_kinds three_kinds ≡ true
unfolding canonical_name all
separate = refl

ordered :
    prioritise_resources three_kinds
    ≡ of_kind "Secret" ∷ of_kind "Deployment" ∷ of_kind "Ingress" ∷ []
unfolding prioritise_resources prioritise_by sorted_by canonical_name keep contains
ordered = refl

prioritise_resources-count_example :
    count (λ o. o.kind == "Secret") (prioritise_resources three_kinds)
    ≡ count (λ o. o.kind == "Secret") three_kinds
prioritise_resources-count_example =
    prioritise_resources-count three_kinds (λ o. o.kind == "Secret") separate

prioritise_resources-rises_example :
    rises_from 0
      (map (λ o. rank default_restore_priorities o.kind) (prioritise_resources three_kinds))
    ≡ true
prioritise_resources-rises_example = prioritise_resources-rises three_kinds separate
