-- ===== src/Base/Members.antt =====
-- Members of a list, and what the list functions do on them.
use Prim.Native.Nat.{ℕ, suc, ◌+◌, ◌≤◌, ◌<◌}
use Prim.Native.String.{String}
use mathlib.Core.Path.{◌≡◌, refl}
use mathlib.Core.Logic.{◌⊎◌, inl, inr}
use mathlib.Core.Bool.{Bool, true, false, not, ◌&&◌}
use mathlib.Core.List.{List, [], ◌∷◌, ◌++◌, map}
use native.Mathlib.Omega.{arith}
use text.Mathlib.Text.{◌==◌}
use text.Mathlib.TextPositions.{eq_refl}
use text.Mathlib.TextEquality.{eq_iff}
use kahu.Base.Tests.{if◌then◌else◌, Bool-cases}
use kahu.Base.Lists.{is_empty, length, keep, any, all, contains}

pub data Member {A : Type 0} (x : A) : List A → Type 0 where
  here : {xs : List A} → Member x (x ∷ xs)
  there : {y : A} {xs : List A} → Member x xs → Member x (y ∷ xs)

module _ {A : Type 0} where
  -- What holds of a list's first element and of the members of its rest holds of its members.
  pub Member-cons :
      {x : A} {xs : List A} (P : A → Type 0)
      → P x
      → ((y : A) → Member y xs → P y)
      → (y : A) → Member y (x ∷ xs)
      → P y
  Member-cons P p h y here = p
  Member-cons P p h y (there m) = h y m

  pub Member-append :
      (xs : List A) {ys : List A} {x : A} → Member x (xs ++ ys) → Member x xs ⊎ Member x ys
  Member-append [] m = inr m
  Member-append (x' ∷ xs) {ys} {x} m =
      Member-cons (λ y. Member y (x' ∷ xs) ⊎ Member y ys) (inl here)
        (λ y m'. elim (Member-append xs m') [ inl old ↦ inl (there old) | inr new ↦ inr new ]) x m

  pub Member-keep :
      (p : A → Bool) (xs : List A) {x : A} → Member x (keep p xs) → Member x xs × (p x ≡ true)
  unfolding keep
  Member-keep p [] m = elim m [ ]
  Member-keep p (y ∷ xs) {x} m = elim (Bool-cases (p y)) [
    | inl t ↦
        Member-cons (λ z. Member z (y ∷ xs) × (p z ≡ true)) (here, t)
          (λ z m'. let (old, h) = Member-keep p xs m' in (there old, h)) x (rw t at m)
    | inr f ↦ let (old, h) = Member-keep p xs (rw f at m) in (there old, h)
  ]

  pub keep-Member :
      (p : A → Bool) {x : A} {xs : List A} → Member x xs → p x ≡ true → Member x (keep p xs)
  unfolding keep
  keep-Member p here h = rw h here
  keep-Member p (there {y} m) h = elim (Bool-cases (p y)) [
    | inl t ↦ rw t (there (keep-Member p m h))
    | inr f ↦ rw f (keep-Member p m h)
  ]

  pub is_empty-append : (xs ys : List A) → is_empty (xs ++ ys) ≡ (is_empty xs && is_empty ys)
  is_empty-append [] ys = refl
  is_empty-append (x ∷ xs) ys = refl

  pub is_empty-keep : (p : A → Bool) (xs : List A) → is_empty (keep p xs) ≡ not (any p xs)
  unfolding keep any
  is_empty-keep p [] = refl
  is_empty-keep p (x ∷ xs) = ground (arith, is_empty-keep p xs)

  -- How many elements pass a test.
  unfoldable pub count : (A → Bool) → List A → ℕ
  count p [] = 0
  count p (x ∷ xs) = let rest = count p xs in if p x then suc rest else rest

  pub count-append : (p : A → Bool) (xs ys : List A) → count p (xs ++ ys) ≡ count p xs + count p ys
  unfolding count
  count-append p [] ys = omega arith
  count-append p (x ∷ xs) ys = ground (arith, count-append p xs ys)

  -- Fewer elements pass a stronger test, and fewer still where a member passes the weaker one alone.
  count_mono :
      (p q : A → Bool) (xs : List A) → ((x : A) → p x ≡ true → q x ≡ true) → count p xs ≤ count q xs
  unfolding count
  count_mono p q [] h = omega arith
  count_mono p q (x ∷ xs) h = let ih = count_mono p q xs h in let e = h x in ground (arith, e)

  pub count-drop :
      (p q : A → Bool) {x : A} {xs : List A}
      → Member x xs
      → ((y : A) → p y ≡ true → q y ≡ true)
      → p x ≡ false
      → q x ≡ true
      → count p xs < count q xs
  unfolding count
  count-drop p q {x} (here {xs}) h f t = let le = count_mono p q xs h in ground arith
  count-drop p q (there {y} {xs} m) h f t =
      let ih = count-drop p q m h f t in let e = h y in ground (arith, e)

  pub count-le-length : (p : A → Bool) (xs : List A) → count p xs ≤ length xs
  unfolding count length
  count-le-length p [] = omega arith
  count-le-length p (x ∷ xs) = let ih = count-le-length p xs in ground arith

  pub any-Member : (p : A → Bool) {x : A} {xs : List A} → Member x xs → p x ≡ true → any p xs ≡ true
  unfolding any
  any-Member p here h = ground arith
  any-Member p (there m) h = let ih = any-Member p m h in ground arith

  pub all-Member : (p : A → Bool) {x : A} {xs : List A} → Member x xs → all p xs ≡ true → p x ≡ true
  unfolding all
  all-Member p here h = ground arith
  all-Member p (there m) h = all-Member p m (ground arith)

  pub Member-any :
      (p : A → Bool) (xs : List A) → any p xs ≡ true → (x : A) × Member x xs × (p x ≡ true)
  unfolding any
  Member-any p [] h = cc
  Member-any p (x ∷ xs) h = elim (Bool-cases (p x)) [
    | inl t ↦ (x, here, t)
    | inr f ↦ let (y, m, t) = Member-any p xs (ground arith) in (y, there m, t)
  ]

  pub all-append : (p : A → Bool) (xs ys : List A) → all p (xs ++ ys) ≡ (all p xs && all p ys)
  unfolding all
  all-append p [] ys = refl
  all-append p (x ∷ xs) ys = ground (arith, all-append p xs ys)

  pub all-keep : (p : A → Bool) (xs : List A) → all p (keep p xs) ≡ true
  unfolding all keep
  all-keep p [] = refl
  all-keep p (x ∷ xs) = ground (arith, all-keep p xs)

  -- Two tests that agree on the members keep the same elements.
  pub keep-agree :
      (p q : A → Bool) (xs : List A) → ((x : A) → Member x xs → p x ≡ q x) → keep p xs ≡ keep q xs
  unfolding keep
  keep-agree p q [] h = refl
  keep-agree p q (x ∷ xs) h =
      let e = h x here in let ih = keep-agree p q xs (λ y m. h y (there m)) in ground arith

pub Member-map :
    {A B : Type 0} (f : A → B) (xs : List A) {y : B}
    → Member y (map f xs)
    → (x : A) × Member x xs × (y ≡ f x)
Member-map f [] m = elim m [ ]
Member-map {A} f (x ∷ xs) {y} m =
    Member-cons (λ z. (x' : A) × Member x' (x ∷ xs) × (z ≡ f x')) (x, here, refl)
      (λ z m'. let (x', old, e) = Member-map f xs m' in (x', there old, e)) y m

pub contains-Member : (xs : List String) {s : String} → Member s xs → contains xs s ≡ true
unfolding contains
contains-Member [] m = elim m [ ]
contains-Member (x ∷ xs) {s} m =
    Member-cons (λ y. contains (x ∷ xs) y ≡ true) (simp (eq_refl) refl)
      (λ y m'. let ih = contains-Member xs m' in ground arith) s m

pub map-Member :
    {A B : Type 0} (f : A → B) {x : A} {xs : List A} → Member x xs → Member (f x) (map f xs)
map-Member f here = here
map-Member f (there m) = there (map-Member f m)

pub Member-of_contains : (xs : List String) (s : String) → contains xs s ≡ true → Member s xs
unfolding contains
Member-of_contains [] s h = cc
Member-of_contains (x ∷ xs) s h = elim (Bool-cases (x == s)) [
  | inl t ↦ rw ((eq_iff x s).0 t) here
  | inr f ↦ there (Member-of_contains xs s (ground arith))
]

pub contains-map :
    {A : Type 0} (f : A → String) (xs : List A) (s : String)
    → contains (map f xs) s ≡ any (λ x. f x == s) xs
unfolding contains any
contains-map f [] s = refl
contains-map f (x ∷ xs) s = ground (arith, contains-map f xs s)
