-- ===== src/Hooks/Namespaces.antt =====
-- hooks/common.go: the namespaces that a hook is for. A `sets.String` is a list of its elements,
-- whose order is not observed.
pub mod Chosen
mod Examples
use kahu.Base.{
  String, Bool, false, not, ◌||◌, List, [], ◌∷◌, ◌++◌, ◌==◌, if◌then◌else◌, is_empty, keep,
  contains,
}

-- `Delete` of one element, and of several in turn.
pub delete_item : List String → String → List String
delete_item set item = keep (λ x. not (x == item)) set

pub delete_items : List String → List String → List String
unfolding delete_item
delete_items set [] = set
delete_items set (item ∷ items) = delete_items (delete_item set item) items

-- `filterIncludesExcludes`: its result, and the caller's set afterwards. Without includes the two
-- are one set.
pub filter_includes_excludes : List String → List String → List String → List String × List String
unfolding delete_items
filter_includes_excludes raw_items includes excludes =
    let unincluded = keep (λ item. not (contains includes item)) raw_items in
    let unavailable = keep (λ item. not (contains raw_items item)) includes in
    let included = delete_items includes (unincluded ++ (unavailable ++ excludes)) in
    let remaining = delete_items raw_items excludes in
    if not (is_empty includes) then (included, raw_items) else (remaining, remaining)

pub filter_hook_namespaces : List String → List String → List String → List String × List String
unfolding filter_includes_excludes
filter_hook_namespaces all_namespaces includes excludes =
    filter_includes_excludes all_namespaces includes excludes

pub check_include : List String → List String → String → Bool
check_include includes excludes key =
    if contains excludes key then false else is_empty includes || contains includes key
