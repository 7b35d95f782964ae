-- ===== src/Utils/Select/Counts.antt =====
-- How often a name stands in the result of `GetResultantItems`, and what it leaves of the
-- caller's list.
use kahu.Utils.Select.{
  Slice, remove_item, remove_from, exclude_items, included_items, get_resultant_items,
}
use kahu.Base.{
  ℕ, suc, ◌-◌, String, ◌≡◌, refl, Bool, ◌||◌, List, [], ◌∷◌, arith, eq_iff, ◌==◌, ltb,
  if◌then◌else◌, is_empty, keep, contains,
}

unfoldable pub count : String → List String → ℕ
count s [] = 0
count s (x ∷ xs) = let rest = count s xs in if x == s then suc rest else rest

pub contains-count : (xs : List String) (s : String) → contains xs s ≡ ltb 0 (count s xs)
unfolding contains count
contains-count [] s = refl
contains-count (x ∷ xs) s = ground (arith, contains-count xs s)

count-remove_item :
    (xs : List String) (r s : String)
    → count s (remove_item xs r) ≡ (if r == s then count s xs - 1 else count s xs)
unfolding count remove_item
count-remove_item [] r s = ground arith
count-remove_item (x ∷ xs) r s =
    ground (arith, count-remove_item xs r s, eq_iff x r, eq_iff x s, eq_iff r s)

count-exclude_items :
    (v : Slice) (itms : List String) (s : String)
    → count s (exclude_items v itms).items ≡ count s v.items - count s itms
unfolding count exclude_items
count-exclude_items v [] s = omega arith
count-exclude_items v (r ∷ itms) s =
    let after = if contains v.items r then remove_from v r else v in
    ground (
      arith,
      count-exclude_items after itms s,
      count-remove_item v.items r s,
      contains-count v.items r,
      eq_iff r s,
    )

count-keep :
    (p : String → Bool) (xs : List String) (s : String)
    → count s (keep p xs) ≡ (if p s then count s xs else 0)
unfolding count keep
count-keep p [] s = ground arith
count-keep p (x ∷ xs) s = ground (arith, count-keep p xs s, eq_iff x s)

-- A name stands in the result as often as in the list that is included, less its occurrences in
-- the exclude list. The list included is the whole list where nothing is asked for, and otherwise
-- the include list without the names that the whole list lacks; an empty whole list lacks none.
pub get_resultant_items-count :
    (all_list include_list exclude_list : List String) (s : String)
    → count s (get_resultant_items all_list include_list exclude_list).0
      ≡ (if is_empty include_list
          then count s all_list
          else if is_empty all_list || contains all_list s
          then count s include_list
          else 0)
        - count s exclude_list
unfolding get_resultant_items included_items
get_resultant_items-count all_list [] exclude_list s =
    count-exclude_items (included_items all_list []) exclude_list s
get_resultant_items-count [] (i ∷ is) exclude_list s =
    let v = included_items [] (i ∷ is) in
    ground (
      arith,
      count-exclude_items v exclude_list s,
      count-keep (contains (i ∷ is)) (i ∷ is) s,
      contains-count (i ∷ is) s,
    )
get_resultant_items-count (a ∷ all_list) (i ∷ is) exclude_list s =
    let v = included_items (a ∷ all_list) (i ∷ is) in
    ground
      (arith, count-exclude_items v exclude_list s, count-keep (contains (a ∷ all_list)) (i ∷ is) s)
