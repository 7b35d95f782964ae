-- ===== src/Base/Actions.antt =====
-- Explicit state passing: an action takes a state to a result and the state after it.
infixl 5 ◌>>=◌ ◌>>◌
abbrev pub ◌>>=◌ : {S A B : Type 0} → (S → A × S) → (A → S → B × S) → S → B × S
◌>>=◌ m f s = let (a, s') = m s in f a s'

abbrev pub ◌>>◌ : {S B : Type 0} → (S → Unit {0} × S) → (S → B × S) → S → B × S
m >> k = m >>= λ _. k

abbrev pub pure : {S A : Type 0} → A → S → A × S
pure a s = (a, s)
