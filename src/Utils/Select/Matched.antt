-- ===== src/Utils/Select/Matched.antt =====
-- Which names `FindMatchedStrings` selects.
use kahu.Api.{ResourceSpec}
use kahu.Utils.Select.{
  Regexp, get_sub_item_strings, collect, resultant, find_matched_strings, and_then, appended,
}
use kahu.Utils.Select.Counts.{count, contains-count, get_resultant_items-count}
use kahu.Base.{
  ◌-◌, ◌≤◌, String, ◌≡◌, refl, inl, inr, Bool, true, false, not, ◌&&◌, ◌||◌, Option, none, some,
  List, [], ◌∷◌, ◌++◌, arith, eq_iff, ◌==◌, if◌then◌else◌, Bool-cases, Option-cases, is_empty, keep,
  any, contains, contains-append,
}

abbrev regexp_matches : Option (String → Bool) → String → Bool
regexp_matches none s = false
regexp_matches (some match) s = match s

-- A specification picks a name: its kind is the kind asked for, and its expression matches or,
-- where it is none, is the name.
abbrev pub picks : Regexp → String → String → ResourceSpec → Bool
picks compile kind s r =
    r.kind == kind && (if r.is_regex then regexp_matches (compile r.name) s else s == r.name)

contains-keep :
    (p : String → Bool) (xs : List String) (s : String)
    → contains (keep p xs) s ≡ (contains xs s && p s)
unfolding contains keep
contains-keep p [] s = refl
contains-keep p (x ∷ xs) s = ground (arith, contains-keep p xs s, eq_iff x s)

and_then-eq-some :
    {A : Type 0} (compile : Regexp) (o : Option A) (f : A → Option A) {b : A}
    → and_then compile o f ≡ some b
    → (a : A) × (o ≡ some a) × (f a ≡ some b)
unfolding and_then
and_then-eq-some compile none f h = cc
and_then-eq-some compile (some a) f h = (a, refl, h)

appended-eq-some :
    (compile : Regexp) (xs : List String) (o : Option (List String)) {ys : List String}
    → appended compile xs o ≡ some ys
    → (zs : List String) × (o ≡ some zs) × (ys ≡ xs ++ zs)
unfolding appended
appended-eq-some compile xs none h = cc
appended-eq-some compile xs (some zs) h = (zs, refl, cc)

module _ (compile : Regexp) (kind : String) (all_list : List String) where
  get_sub_item_strings-contains :
      (input : String) (b : Bool) (s : String) (out : List String)
      → get_sub_item_strings compile all_list input b ≡ some out
      → contains out s
        ≡ (contains all_list s && (if b then regexp_matches (compile input) s else s == input))
  unfolding get_sub_item_strings
  get_sub_item_strings-contains input false s out h =
      ground (arith, contains-keep (λ item. item == input) all_list s)
  get_sub_item_strings-contains input true s out h = elim (Option-cases (compile input)) [
    | inl e ↦ absurd (ground (arith, e))
    | inr (match, e) ↦ ground (arith, e, contains-keep match all_list s)
  ]

  collect_one :
      (r : ResourceSpec) (before : List String) (mid : List String) (s : String)
      → (if r.kind == kind
          then appended compile before (get_sub_item_strings compile all_list r.name r.is_regex)
          else some before)
        ≡ some mid
      → contains mid s ≡ (contains before s || (contains all_list s && picks compile kind s r))
  collect_one r before mid s h = elim (Bool-cases (r.kind == kind)) [
    | inl e ↦
        let (zs, found, ends) =
          appended-eq-some compile before (get_sub_item_strings compile all_list r.name r.is_regex)
            (rw e at h) in
        ground (
          arith,
          e,
          ends,
          contains-append before zs s,
          get_sub_item_strings-contains r.name r.is_regex s zs found,
        )
    | inr e ↦ ground (arith, e)
  ]

  collect-contains :
      (rs : List ResourceSpec) (before out : List String) (s : String)
      → collect compile kind all_list rs before ≡ some out
      → contains out s
        ≡ (contains before s || (contains all_list s && any (picks compile kind s) rs))
  unfolding collect any
  collect-contains [] before out s h = ground arith
  collect-contains (r ∷ rs) before out s h =
      let (mid, first, last) = and_then-eq-some compile _ (collect compile kind all_list rs) h in
      let one = collect_one r before mid s first in
      let rest = collect-contains rs mid out s last in ground (arith, one, rest)

  resultant-count :
      (included excluded : List String) (s : String)
      → count s (resultant compile all_list included excluded)
        ≡ (if is_empty all_list || contains all_list s then count s included else 0)
          - count s excluded
  unfolding resultant
  resultant-count [] excluded s = unfold count in ground arith
  resultant-count (i ∷ is) excluded s = get_resultant_items-count all_list (i ∷ is) excluded s

  -- The two loops of a call that does not panic, and what its result counts.
  find_matched_strings-parts :
      (include_list exclude_list : List ResourceSpec) {out : List String}
      → find_matched_strings compile kind all_list include_list exclude_list ≡ some out
      → (included excluded : List String) × (collect compile kind all_list include_list
            (if is_empty include_list then all_list else [])
          ≡ some included)
        × (collect compile kind all_list exclude_list [] ≡ some excluded)
        × (out ≡ resultant compile all_list included excluded)
  unfolding find_matched_strings
  find_matched_strings-parts include_list exclude_list h =
      let (included, first, h') = and_then-eq-some compile _ _ h in
      let (excluded, second, h'') = and_then-eq-some compile _ _ h' in
      (included, excluded, first, second, cc)

-- A name that `FindMatchedStrings` returns is one of the names given, and if there are include
-- specifications, one of them picks it.
pub find_matched_strings_sound :
    (compile : Regexp) (kind : String) (all_list : List String)
    (include_list exclude_list : List ResourceSpec) {out : List String} (s : String)
    → find_matched_strings compile kind all_list include_list exclude_list ≡ some out
    → contains out s ≡ true
    → (contains all_list s ≡ true)
      × ((is_empty include_list || any (picks compile kind s) include_list) ≡ true)
find_matched_strings_sound compile kind all_list include_list exclude_list {out} s h selected =
    let (included, excluded, first, second, ends) =
      find_matched_strings-parts compile kind all_list include_list exclude_list h in
    let start = if is_empty include_list then all_list else [] in
    unfold contains in
    ground (
      arith,
      contains-count out s,
      contains-count included s,
      resultant-count compile kind all_list included excluded s,
      collect-contains compile kind all_list include_list start included s first,
    )

-- Without include specifications, and for a name that is given at most once, the name is returned
-- exactly when it is given and no exclude specification picks it.
pub find_matched_strings_exact :
    (compile : Regexp) (kind : String) (all_list : List String) (exclude_list : List ResourceSpec)
    {out : List String} (s : String)
    → count s all_list ≤ 1
    → find_matched_strings compile kind all_list [] exclude_list ≡ some out
    → contains out s ≡ (contains all_list s && not (any (picks compile kind s) exclude_list))
find_matched_strings_exact compile kind all_list exclude_list {out} s once h =
    let (included, excluded, first, second, ends) =
      find_matched_strings-parts compile kind all_list [] exclude_list h in
    unfold contains collect in
    ground (
      arith,
      contains-count out s,
      contains-count all_list s,
      contains-count excluded s,
      resultant-count compile kind all_list included excluded s,
      collect-contains compile kind all_list exclude_list [] excluded s second,
    )
