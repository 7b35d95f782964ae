-- ===== src/Operation/Threads.antt =====
-- The operations that the manager keeps, against its threads, in every interleaving.
use kahu.Operation.{
  Handler, Polled, Thread, checked, running, ended, Manager, new_manager, begin_run, advance, Step,
  started, advanced, Reachable, initially, then_step,
}
use kahu.Base.{
  String, ◌≡◌, refl, ◌≢◌, inl, inr, Bool, true, false, ◌||◌, none, some, List, [], ◌∷◌, ◌++◌, arith,
  eq_iff, ◌==◌, Option-cases, any, any-append, Dict, at_key, put, at_key-put, at_key-remove,
}

-- The thread has added its operation under the index and not removed it.
pub is_live : String → Thread → Bool
is_live i (checked j h) = false
is_live i (running j h) = j == i
is_live i (ended j) = j == i

abbrev IsOwned : Manager → Type 0
IsOwned m = (i : String) (h : Handler) → at_key m.ops i ≡ some h → any (is_live i) m.threads ≡ true

begin_run-IsOwned :
    (index : String) (handler : Handler) (m : Manager)
    → IsOwned m
    → IsOwned (begin_run index handler m).0
unfolding begin_run any is_live
begin_run-IsOwned index handler m owned = elim (Option-cases (at_key m.ops index)) [
  | inl free ↦ rw (free, begin_run) owned
  | inr (h, taken) ↦ rw (taken, begin_run) owned
]

advance-IsOwned :
    (r : Polled) (t : Thread) (ops : Dict Handler) (i : String) (h : Handler) (rest : Bool)
    → (at_key ops i ≡ some h → (is_live i t || rest) ≡ true)
    → at_key (advance r t ops).1 i ≡ some h
    → (any (is_live i) (advance r t ops).0 || rest) ≡ true
unfolding advance any is_live
advance-IsOwned r (checked j g) ops i h rest before e =
    ground (arith, at_key-put ops j i g, eq_iff j i)
advance-IsOwned (successful, some e') (running j g) ops i h rest before e = ground (arith, before)
advance-IsOwned (true, none) (running j g) ops i h rest before e = ground (arith, before)
advance-IsOwned (false, none) (running j g) ops i h rest before e = ground (arith, before)
advance-IsOwned r (ended j) ops i h rest before e =
    ground (arith, at_key-remove ops j i, eq_iff j i)

advanced-IsOwned :
    (r : Polled) (xs : List Thread) (t : Thread) (ys : List Thread) (ops : Dict Handler)
    → ((i : String) (h : Handler) → at_key ops i ≡ some h → any (is_live i) (xs ++ t ∷ ys) ≡ true)
    → (i : String) (h : Handler) → at_key (advance r t ops).1 i ≡ some h
    → any (is_live i) (xs ++ ((advance r t ops).0 ++ ys)) ≡ true
unfolding any
advanced-IsOwned r xs t ys ops owned i h e =
    let old = owned i h in
    let split = any-append (is_live i) xs (t ∷ ys) in
    let joined = any-append (is_live i) xs ((advance r t ops).0 ++ ys) in
    let new = any-append (is_live i) (advance r t ops).0 ys in
    let kept =
      advance-IsOwned r t ops i h (any (is_live i) xs || any (is_live i) ys)
        (λ here. ground (arith, old here, split)) e in
    ground (arith, joined, new, kept)

step-IsOwned : {m m' : Manager} → Step m m' → IsOwned m → IsOwned m'
step-IsOwned (started index handler m) owned = begin_run-IsOwned index handler m owned
step-IsOwned (advanced r xs t ys ops calls) owned = advanced-IsOwned r xs t ys ops owned

Reachable-IsOwned : {m : Manager} → Reachable m → IsOwned m
unfolding new_manager at_key
Reachable-IsOwned initially = λ i h e. absurd (cc)
Reachable-IsOwned (then_step p step) = step-IsOwned step (Reachable-IsOwned p)

-- In every interleaving, an index that the manager holds belongs to an operation that is still in
-- its loop or about to remove it.
pub Reachable-owned :
    {m : Manager} (i : String) (h : Handler)
    → Reachable m
    → at_key m.ops i ≡ some h
    → any (is_live i) m.threads ≡ true
Reachable-owned i h p e = Reachable-IsOwned p i h e

no_thread : (i : String) (ts : List Thread) → ts ≡ [] → any (is_live i) ts ≢ true
unfolding any
no_thread i [] e live = absurd (cc)
no_thread i (t ∷ ts) e live = absurd (cc)

-- In every interleaving, once no thread is left `Run` passes its test for every index again.
pub begin_run_free :
    {m : Manager} (i : String) (h : Handler)
    → Reachable m
    → m.threads ≡ []
    → (begin_run i h m).1 ≡ none
unfolding begin_run any
begin_run_free {m} i h p idle = elim (Option-cases (at_key m.ops i)) [
  | inl free ↦ rw (free, begin_run) refl
  | inr (g, taken) ↦
      let live = Reachable-owned i g p taken in absurd (no_thread i m.threads idle live)
]

-- The test and the insertion are two locked sections, so two calls of `Run` with one index can
-- both pass the test: two operations then run under one index.
pub begin_run_race :
    (i : String) (g h : Handler)
    → (m : Manager) × Reachable m × (m.threads ≡ running i h ∷ running i g ∷ [])
unfolding begin_run advance new_manager at_key put
begin_run_race i g h = (
  _,
  then_step
      (then_step (then_step (then_step initially (started i g new_manager)) (started i h _))
        (advanced (false, none) [] (checked i h) (checked i g ∷ []) [] []))
      (advanced (false, none) (running i h ∷ []) (checked i g) [] (put [] i h) []),
  refl,
)
