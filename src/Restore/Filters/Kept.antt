-- ===== src/Restore/Filters/Kept.antt =====
-- Lists of objects from which the cache dropped some.
use kahu.Restore.Filters.{Object, same_key}
use kahu.Base.{
  ◌≡◌, refl, ◌⊎◌, inl, inr, Bool, true, false, not, ◌&&◌, ◌||◌, List, [], ◌∷◌, arith, eq_refl, ◌==◌,
  if◌then◌else◌, Bool-cases, keep, any,
}

-- Dropping every object with the key of a listed one leaves no bad object, if the list has the key
-- of each bad object.
pub clean :
    (bad : Object → Bool) (dropped all_objects : List Object)
    → ((p : Object)
        → bad p ≡ true
        → any (λ x. bad x && same_key p x) all_objects ≡ true
        → any (same_key p) dropped ≡ true)
    → (ys : List Object) → ((f : Object → Bool) → any f ys ≡ true → any f all_objects ≡ true)
    → any bad (keep (λ p. not (any (same_key p) dropped)) ys) ≡ false
unfolding any keep same_key
clean bad dropped zs covers [] sub = refl
clean bad dropped zs covers (y ∷ ys) sub =
    let rest = clean bad dropped zs covers ys (λ f h. sub f (ground (arith, h))) in
    elim (Bool-cases (bad y)) [
      | inl b ↦
          let gone =
            covers y b (sub (λ x. bad x && (y.uid == x.uid)) (ground (arith, b, eq_refl y.uid))) in
          ground (arith, gone, rest)
      | inr b ↦ ground (arith, b, rest)
    ]

-- What is kept is no worse.
pub keep_clean :
    (bad p : Object → Bool) (xs : List Object) → any bad xs ≡ false → any bad (keep p xs) ≡ false
unfolding any keep
keep_clean bad p [] h = refl
keep_clean bad p (x ∷ xs) h = ground (arith, keep_clean bad p xs)

pub keep-keep :
    (p q : Object → Bool) (xs : List Object) → keep p (keep q xs) ≡ keep (λ x. q x && p x) xs
unfolding keep
keep-keep p q [] = refl
keep-keep p q (x ∷ xs) = ground (arith, keep-keep p q xs)

pub keep_same :
    (p q : Object → Bool) (xs : List Object) → ((x : Object) → p x ≡ q x) → keep p xs ≡ keep q xs
unfolding keep
keep_same p q [] e = refl
keep_same p q (x ∷ xs) e = ground (arith, e x, keep_same p q xs e)

pub keep_all : (xs : List Object) → keep (λ x. true) xs ≡ xs
unfolding keep
keep_all [] = refl
keep_all (x ∷ xs) = rw (keep_all xs) refl

pub any_none : (s : Object → Bool) (xs : List Object) → any (λ x. false && s x) xs ≡ false
unfolding any
any_none s [] = refl
any_none s (x ∷ xs) = any_none s xs

pub any-false : (xs : List Object) → any (λ x. false) xs ≡ false
unfolding any
any-false [] = refl
any-false (x ∷ xs) = any-false xs

pub any_both :
    (a b : Object → Bool) (xs : List Object)
    → any a xs ≡ false
    → any b xs ≡ false
    → any (λ x. a x || b x) xs ≡ false
unfolding any
any_both a b [] h k = refl
any_both a b (x ∷ xs) h k = ground (arith, any_both a b xs)

pub any_same :
    (a b : Object → Bool) → ((x : Object) → a x ≡ b x) → (xs : List Object) → any a xs ≡ any b xs
unfolding any
any_same a b e [] = refl
any_same a b e (x ∷ xs) = ground (arith, e x, any_same a b e xs)

pub any_or :
    (a b s : Object → Bool) (xs : List Object)
    → any (λ x. (a x || b x) && s x) xs ≡ (any (λ x. a x && s x) xs || any (λ x. b x && s x) xs)
unfolding any
any_or a b s [] = refl
any_or a b s (x ∷ xs) = ground (arith, any_or a b s xs)

pub if_cases :
    {A : Type 0} (b : Bool) (x y : A) {r : A}
    → (if b then x else y) ≡ r
    → ((b ≡ true) × (x ≡ r)) ⊎ ((b ≡ false) × (y ≡ r))
if_cases true x y e = inl (refl, e)
if_cases false x y e = inr (refl, e)
