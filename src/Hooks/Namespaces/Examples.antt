-- ===== src/Hooks/Namespaces/Examples.antt =====
-- Concrete namespaces.
use kahu.Hooks.Namespaces.{filter_hook_namespaces, check_include}
use kahu.Hooks.Namespaces.Chosen.{filter_hook_namespaces-check_include}
use kahu.Base.{String, ◌≡◌, ◌&&◌, List, [], ◌∷◌, contains}

abbrev namespaces : List String
namespaces = "shop" ∷ "test" ∷ []

abbrev wanted : List String
wanted = "shop" ∷ "mail" ∷ []

filter_hook_namespaces-check_include_example :
    contains (filter_hook_namespaces namespaces wanted ("test" ∷ [])).0 "mail"
    ≡ (contains namespaces "mail" && check_include wanted ("test" ∷ []) "mail")
filter_hook_namespaces-check_include_example =
    filter_hook_namespaces-check_include namespaces wanted ("test" ∷ []) "mail"
