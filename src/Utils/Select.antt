-- ===== src/Utils/Select.antt =====
-- utils/validations.go and utils/utils.go: how lists of names are included and excluded.
pub mod Counts
pub mod Matched
mod Examples
use kahu.Api.{ResourceSpec}
use kahu.Base.{
  String, Bool, true, false, Option, none, some, List, [], ◌∷◌, ◌++◌, ◌==◌, if◌then◌else◌, is_empty,
  keep, contains,
}

-- `Contains` is `contains` of the base. `RemoveItem` drops the first occurrence.
pub remove_item : List String → String → List String
remove_item [] r = []
remove_item (v ∷ s) r = let rest = remove_item s r in if v == r then s else v ∷ rest

-- What an array holds after the elements of a list are written to its front.
pub overwrite : List String → List String → List String
overwrite [] array = array
overwrite (x ∷ xs) [] = []
overwrite (x ∷ xs) (_ ∷ array) = x ∷ overwrite xs array

-- A slice, with the contents of the array of the caller's list. `RemoveItem` moves the elements
-- of its argument within their array, so it writes to the caller's where the slice is the caller's.
pub record Slice : Type 0 where
  pub items : List String
  pub shared : Bool
  pub array : List String

remove_from : Slice → String → Slice
remove_from s r =
    let items = remove_item s.items r in
    record s { items = items; array = if s.shared then overwrite items s.array else s.array }

-- The last loop of `GetResultantItems`.
pub exclude_items : Slice → List String → Slice
unfolding remove_from
exclude_items s [] = s
exclude_items s (itm ∷ itms) =
    exclude_items (if contains s.items itm then remove_from s itm else s) itms

-- The slice before that loop: the caller's list, or a fresh one.
pub included_items : List String → List String → Slice
included_items all_list [] = record { items = all_list; shared = true; array = all_list }
included_items all_list (i ∷ is) =
    let known = if is_empty all_list then i ∷ is else all_list in
    record { items = keep (contains known) (i ∷ is); shared = false; array = all_list }

-- The result, with what the caller's `allList` holds afterwards.
pub get_resultant_items : List String → List String → List String → List String × List String
get_resultant_items all_list include_list exclude_list =
    let s = exclude_items (included_items all_list include_list) exclude_list in (s.items, s.array)

-- `regexp.MustCompile` panics where this is `none`.
abbrev pub Regexp : Type 0
Regexp = String → Option (String → Bool)

module _ (compile : Regexp) where
  -- `none` is a panic.
  pub get_sub_item_strings : List String → String → Bool → Option (List String)
  get_sub_item_strings all_list input true = elim (compile input) [
    | none ↦ none
    | some match ↦ some (keep match all_list)
  ]
  get_sub_item_strings all_list input false = some (keep (λ item. item == input) all_list)

  appended : List String → Option (List String) → Option (List String)
  appended xs none = none
  appended xs (some ys) = some (xs ++ ys)

  and_then : {A : Type 0} → Option A → (A → Option A) → Option A
  and_then none f = none
  and_then (some a) f = f a

  -- The loop over a list of specifications, with what it has collected.
  pub collect : String → List String → List ResourceSpec → List String → Option (List String)
  unfolding get_sub_item_strings appended and_then
  collect kind all_list [] collected = some collected
  collect kind all_list (r ∷ rs) collected =
      and_then
        (if r.kind == kind
          then appended collected (get_sub_item_strings all_list r.name r.is_regex)
          else some collected)
        (collect kind all_list rs)

  resultant : List String → List String → List String → List String
  resultant all_list [] excluded = []
  resultant all_list (i ∷ is) excluded = (get_resultant_items all_list (i ∷ is) excluded).0

  pub find_matched_strings :
      String → List String → List ResourceSpec → List ResourceSpec → Option (List String)
  unfolding collect resultant get_resultant_items
  find_matched_strings kind all_list include_list exclude_list =
      and_then (collect kind all_list include_list (if is_empty include_list then all_list else []))
        λ included.
          and_then (collect kind all_list exclude_list [])
            λ excluded. some (resultant all_list included excluded)
