-- ===== src/Restore/History.antt =====
-- Rules for what an action adds to the history of a run, and what holds of its result.
use kahu.Restore.Cluster.{Machine, Work, call, ask, log}
use kahu.Base.{◌≡◌, refl, Bool, true, false, List, ◌∷◌, if◌then◌else◌, ◌>>=◌, pure}

-- `new` is `old` with works put before it of which `P` holds.
pub data Adds (P : Work → Type 0) (old : List Work) : List Work → Type 0 where
  same : Adds P old old
  more : {w : Work} {h : List Work} → Adds P old h → P w → Adds P old (w ∷ h)

module _ {P : Work → Type 0} where
  pub Adds-trans : {a b c : List Work} → Adds P a b → Adds P b c → Adds P a c
  Adds-trans p same = p
  Adds-trans p (more q w) = more (Adds-trans p q) w

module _ {W Cache : Type 0} where
  -- From every state, the works added are in `P`, and the result is in `Q`.
  pub record Ensures {A : Type 0} (P : Work → Type 0) (Q : A → Type 0)
      (act : Machine W Cache → A × Machine W Cache) : Type 0 where
    pub at : (s : Machine W Cache) → Adds P s.history (act s).1.history × Q (act s).0

  -- The works alone.
  abbrev pub Adding :
      {A : Type 0} → (Work → Type 0) → (Machine W Cache → A × Machine W Cache) → Type 0
  Adding P act = Ensures P (λ _. Unit {0}) act

  module _ {P : Work → Type 0} where
    pub Ensures-pure : {A : Type 0} {Q : A → Type 0} (a : A) → Q a → Ensures P Q (pure a)
    Ensures-pure a q = record { at = λ s. (same, q) }

    pub Adding-pure : {A : Type 0} (a : A) → Adding P (pure a)
    Adding-pure a = record { at = λ s. (same, tt) }

    pub Adding-call : {A : Type 0} (f : W → A × W) → Adding P (call f)
    Adding-call f = record { at = λ s. (same, tt) }

    pub Adding-ask : {A : Type 0} (f : W → A) → Adding P (ask f)
    Adding-ask f = record { at = λ s. (same, tt) }

    pub Adding-log : (w : Work) → P w → Adding P (log w)
    Adding-log w p = record { at = λ s. (more same p, tt) }

    pub Ensures-bind :
        {A B : Type 0} {R : B → Type 0} (Q : A → Type 0)
        (act : Machine W Cache → A × Machine W Cache)
        (f : A → Machine W Cache → B × Machine W Cache)
        → Ensures P Q act
        → ((a : A) → Q a → Ensures P R (f a))
        → Ensures P R (act >>= f)
    Ensures-bind Q act f p q = record {
      at = λ s.
          let (h, ok_result) = p.at s in
          let (h', r) = (q (act s).0 ok_result).at (act s).1 in (Adds-trans h h', r);
    }

    pub Adding-bind :
        {A B : Type 0} {R : B → Type 0} (act : Machine W Cache → A × Machine W Cache)
        (f : A → Machine W Cache → B × Machine W Cache)
        → Adding P act
        → ((a : A) → Ensures P R (f a))
        → Ensures P R (act >>= f)
    Adding-bind act f p q = Ensures-bind (λ _. Unit) act f p (λ a _. q a)

    pub Ensures-weaken :
        {A : Type 0} {Q R : A → Type 0} (act : Machine W Cache → A × Machine W Cache)
        → Ensures P Q act
        → ((a : A) → Q a → R a)
        → Ensures P R act
    Ensures-weaken act p f = record { at = λ s. let (h, q) = p.at s in (h, f (act s).0 q) }

    pub Ensures-if :
        {A : Type 0} {Q : A → Type 0} (b : Bool) (m n : Machine W Cache → A × Machine W Cache)
        → (b ≡ true → Ensures P Q m)
        → (b ≡ false → Ensures P Q n)
        → Ensures P Q (if b then m else n)
    Ensures-if true m n hm hn = hm refl
    Ensures-if false m n hm hn = hn refl

pub ruleset adding_rules =
    (Adding-pure, Adding-call, Adding-ask, Adding-log, Adding-bind, Ensures-if)
