-- ===== src/VolumeService/Start/Covered.antt =====
-- Which responses of the driver pass for an answer to the whole request.
use mathlib.Core.Path.{subst}
use kahu.VolumeService.Cluster.{Cluster, BackupIdentifier}
use kahu.VolumeService.Start.{validate_backup_response, has_all}
use kahu.VolumeService.Request.{name_set, from_names, insert}
use kahu.Base.{
  suc, ◌≤◌, String, ◌≡◌, refl, sym, inl, inr, Bool, true, false, not, ◌&&◌, ◌||◌, none, List, [],
  ◌∷◌, map, arith, eq_iff, eq_refl, ◌==◌, if◌then◌else◌, Bool-cases, length, all, contains,
  all-Member, Member-of_contains,
}

-- Each name stands once.
unfoldable pub is_distinct : List String → Bool
is_distinct [] = true
is_distinct (name ∷ names) = let rest = is_distinct names in not (contains names name) && rest

-- The list without the first of an element.
without : String → List String → List String
without x [] = []
without x (y ∷ ys) = let rest = without x ys in if y == x then ys else y ∷ rest

length-without :
    (x : String) (ys : List String) → contains ys x ≡ true → length ys ≡ suc (length (without x ys))
unfolding contains length without
length-without x [] h = cc
length-without x (y ∷ ys) h = elim (Bool-cases (y == x)) [
  | inl t ↦ rw t refl
  | inr f ↦ let ih = length-without x ys (ground arith) in rw f (ground arith)
]

without-contains :
    (x z : String) (ys : List String)
    → contains ys z ≡ true
    → (x == z) ≡ false
    → contains (without x ys) z ≡ true
unfolding contains without
without-contains x z [] h ne = cc
without-contains x z (y ∷ ys) h ne =
    let ih = without-contains x z ys in ground (arith, eq_iff y x, eq_iff y z, eq_iff x z, ih)

contains-of_without :
    (x z : String) (ys : List String) → contains (without x ys) z ≡ true → contains ys z ≡ true
unfolding contains without
contains-of_without x z [] h = cc
contains-of_without x z (y ∷ ys) h =
    let ih = contains-of_without x z ys in ground (arith, eq_iff y x, ih)

-- As many distinct names as the list has, all of the list, are all of it.
all_contained :
    (xs ys : List String) (n : String)
    → is_distinct xs ≡ true
    → ((x : String) → contains xs x ≡ true → contains ys x ≡ true)
    → length ys ≤ length xs
    → contains ys n ≡ true
    → contains xs n ≡ true
unfolding is_distinct contains length
all_contained [] [] n distinct h le m = m
all_contained [] (y ∷ ys) n distinct h le m = ground arith
all_contained (x ∷ xs) ys n distinct h le m =
    let stands : contains ys x ≡ true = h x (ground (arith, eq_refl x)) in
    let shorter = length-without x ys stands in
    let fresh : contains xs x ≡ false = ground arith in
    elim (Bool-cases (x == n)) [
      | inl t ↦ ground arith
      | inr f ↦
          let rest =
            all_contained xs (without x ys) n (ground arith)
              (λ z z_in. without-contains x z ys (h z (ground arith)) (elim (Bool-cases (x == z)) [
                | inl t ↦
                    let e = (eq_iff x z).0 t in
                    let w = subst (λ s. contains xs s ≡ true) (sym e) z_in in cc
                | inr g ↦ g
              ]))
              (omega arith) (without-contains x n ys m f) in
          ground arith
    ]

from_names-contains :
    (acc names : List String) (n : String)
    → (contains acc n || contains names n) ≡ true
    → contains (from_names acc names) n ≡ true
unfolding from_names contains insert
from_names-contains acc [] n h = ground arith
from_names-contains acc (name ∷ names) n h =
    from_names-contains (insert acc name) names n (ground (arith, eq_iff name n))

name_set-contains :
    (names : List String) (n : String)
    → contains names n ≡ true
    → contains (name_set names) n ≡ true
unfolding name_set
name_set-contains names n h = from_names-contains [] names n (ground arith)

length-map : {A B : Type 0} (f : A → B) (xs : List A) → length (map f xs) ≡ length xs
unfolding length
length-map f [] = refl
length-map f (x ∷ xs) = let ih = length-map f xs in cc

module _ (c : Cluster) where
  validated_by :
      (names : List String) (ids : List BackupIdentifier)
      → validate_backup_response c names ids ≡ none
      → (length ids ≡ length names)
        × (all (contains names) (name_set (map (λ i. i.pv_name) ids)) ≡ true)
  unfolding validate_backup_response has_all
  validated_by names ids h = ground arith

  -- Where the driver's identifiers name distinct volumes, `validateBackupResponse` accepts them only
  -- if each requested volume has one.
  pub validate_backup_response-contains :
      (names : List String) (ids : List BackupIdentifier) (n : String)
      → is_distinct (map (λ i. i.pv_name) ids) ≡ true
      → validate_backup_response c names ids ≡ none
      → contains names n ≡ true
      → contains (map (λ i. i.pv_name) ids) n ≡ true
  validate_backup_response-contains names ids n distinct accepted m =
      let (same, known) = validated_by names ids accepted in
      let pv_names = map (λ i. i.pv_name) ids in
      let counted = length-map (λ i. i.pv_name) ids in
      all_contained pv_names names n distinct
        (λ x x_in.
          all-Member (contains names)
            (Member-of_contains (name_set pv_names) x (name_set-contains pv_names x x_in)) known)
        (omega arith) m
