-- ===== src/Backup/Order.antt =====
-- A rule for the order of the work in a handler's history: hooks, volumes and resources in the
-- order of the stages, each at most once, with writes anywhere between.
use kahu.Backup.Cluster.{
  Machine, Action, Work, ran_hook, backed_up_volumes, backed_up_resources, wrote_status,
  wrote_metadata, deleted_content, deleted_metadata, pre_phase, post_phase, ◌>>=◌,
}
use kahu.Base.{ℕ, ◌≤◌, ◌<◌, ◌≡◌, Option, none, some, List, ◌∷◌, arith}

-- The place of a work in the order; a write and a deletion have none.
abbrev phase_of : Work → Option ℕ
phase_of (ran_hook pre_phase e) = some 1
phase_of backed_up_volumes = some 2
phase_of (ran_hook post_phase e) = some 3
phase_of backed_up_resources = some 4
phase_of (wrote_status b) = none
phase_of (wrote_metadata b) = none
phase_of (deleted_content n) = none
phase_of (deleted_metadata n) = none

-- `new` is `old` with works put before it whose places rise from `n` and stay below `m`.
pub data InOrder (n : ℕ) (old : List Work) : ℕ → List Work → Type 0 where
  start : {m : ℕ} → n ≤ m → InOrder n old m old
  write :
      {m : ℕ} {w : Work} {h : List Work}
      → InOrder n old m h
      → phase_of w ≡ none
      → InOrder n old m (w ∷ h)
  step :
      {m k r : ℕ} {w : Work} {h : List Work}
      → InOrder n old m h
      → phase_of w ≡ some r
      → m ≤ r
      → r < k
      → InOrder n old k (w ∷ h)

pub InOrder-widen :
    {n : ℕ} {old : List Work} {m k : ℕ} {h : List Work}
    → InOrder n old m h
    → m ≤ k
    → InOrder n old k h
InOrder-widen (start p) q = start (omega arith)
InOrder-widen (write h e) q = write (InOrder-widen h q) e
InOrder-widen (step h e p r) q = step h e p (omega arith)

InOrder-le : {n : ℕ} {old : List Work} {m : ℕ} {h : List Work} → InOrder n old m h → n ≤ m
InOrder-le (start p) = p
InOrder-le (write h e) = InOrder-le h
InOrder-le (step h e p r) = let ih = InOrder-le h in omega arith

pub InOrder-trans :
    {n m : ℕ} {old h : List Work} {k : ℕ} {h' : List Work}
    → InOrder n old m h
    → InOrder m h k h'
    → InOrder n old k h'
InOrder-trans a (start p) = InOrder-widen a p
InOrder-trans a (write b e) = write (InOrder-trans a b) e
InOrder-trans a (step b e p r) = step (InOrder-trans a b) e p r

module _ {W : Type 0} where
  -- An action that does its work in order, from the place `n` to before `m`.
  abbrev pub Keeps : {A : Type 0} → ℕ → ℕ → Action W A → Type 0
  Keeps n m act = (s : Machine W) → InOrder n s.history m (act s).1.history

  pub Keeps-bind :
      {A B : Type 0} {n k : ℕ} (m : ℕ) (act : Action W A) (f : A → Action W B)
      → Keeps n m act
      → ((a : A) → Keeps m k (f a))
      → Keeps n k (act >>= f)
  Keeps-bind m act f p q s = InOrder-trans (p s) (q (act s).0 (act s).1)
