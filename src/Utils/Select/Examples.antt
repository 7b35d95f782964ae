-- ===== src/Utils/Select/Examples.antt =====
-- Concrete selections.
use kahu.Api.{ResourceSpec}
use kahu.Utils.Select.{exclude_items, included_items, remove_item, Regexp, find_matched_strings}
use kahu.Base.{String, ◌≡◌, refl, true, false, some, List, [], ◌∷◌, ◌==◌, keep, contains}

-- An engine for expressions without operators.
abbrev literal : Regexp
literal pattern = some (λ s. s == pattern)

abbrev spec : String → ResourceSpec
spec name = record { name = name; kind = "Deployment"; is_regex = false }

abbrev names : List String
names = "web" ∷ "db" ∷ "cache" ∷ []

selected : contains ("web" ∷ []) "web" ≡ true
unfolding contains
selected = refl

run_exclude :
    find_matched_strings literal "Deployment" names [] (spec "db" ∷ [])
    ≡ some ("web" ∷ "cache" ∷ [])
unfolding find_matched_strings keep exclude_items contains included_items remove_item
run_exclude = refl
