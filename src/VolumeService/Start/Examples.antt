-- ===== src/VolumeService/Start/Examples.antt =====
-- A start of a backup of one volume.
use kahu.VolumeService.Start.{validate_backup_response, has_all}
use kahu.VolumeService.Request.{name_set, from_names, insert}
use kahu.VolumeService.Start.Covered.{is_distinct, validate_backup_response-contains}
use kahu.VolumeService.Sample.{an_identifier, cluster}
use kahu.Base.{◌≡◌, refl, true, none, [], ◌∷◌, length, keep, all, contains, here, contains-Member}

one_name : is_distinct ("pv1" ∷ []) ≡ true
unfolding is_distinct contains
one_name = refl

response_passes : validate_backup_response cluster ("pv1" ∷ []) (an_identifier ∷ []) ≡ none
unfolding validate_backup_response name_set from_names insert has_all contains length keep all
response_passes = refl

validate_backup_response-contains_example : contains ("pv1" ∷ []) "pv1" ≡ true
validate_backup_response-contains_example =
    validate_backup_response-contains cluster ("pv1" ∷ []) (an_identifier ∷ []) "pv1" one_name
      response_passes (contains-Member ("pv1" ∷ []) here)
