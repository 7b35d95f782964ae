-- ===== src/Operation/Examples.antt =====
-- Concrete operations.
use kahu.Operation.{
  Handler, operate, checked, running, Manager, new_manager, begin_run, advance, started, advanced,
  Reachable, initially, then_step,
}
use kahu.Operation.Callbacks.{is_pending, verdict, operate_once}
use kahu.Operation.Threads.{is_live, Reachable-owned, begin_run_free, begin_run_race}
use kahu.Base.{◌≡◌, refl, true, false, none, some, [], ◌∷◌, ◌++◌, any, all, message, at_key, put}

abbrev handler : Handler
handler = record { has_on_failure = true; has_on_success = true }

one_pending : all is_pending ((false, none) ∷ []) ≡ true
unfolding all is_pending
one_pending = refl

over : is_pending (true, some (message "timeout")) ≡ false
unfolding is_pending
over = refl

operate_once_example :
    (operate "snapshot" handler ((false, none) ∷ []) ≡ ([], false))
    × (operate "snapshot" handler
          (((false, none) ∷ []) ++ (true, some (message "timeout")) ∷ ((true, none) ∷ []))
        ≡ (verdict "snapshot" (true, some (message "timeout")) ∷ [], true))
operate_once_example =
    operate_once "snapshot" handler ((false, none) ∷ []) (true, some (message "timeout"))
      ((true, none) ∷ []) refl refl one_pending over

-- One operation that was added and runs.
one_running : Reachable (record {
  ops = ("snapshot", handler) ∷ [];
  threads = running "snapshot" handler ∷ [];
  callbacks = [];
})
unfolding begin_run advance new_manager at_key put
one_running =
    then_step (then_step initially (started "snapshot" handler new_manager))
      (advanced (false, none) [] (checked "snapshot" handler) [] [] [])

known : at_key (("snapshot", handler) ∷ []) "snapshot" ≡ some handler
unfolding at_key
known = refl

Reachable-owned_example : any (is_live "snapshot") (running "snapshot" handler ∷ []) ≡ true
Reachable-owned_example = Reachable-owned "snapshot" handler one_running known

idle : new_manager.threads ≡ []
unfolding new_manager
idle = refl

begin_run_free_example : (begin_run "snapshot" handler new_manager).1 ≡ none
begin_run_free_example = begin_run_free "snapshot" handler initially idle

begin_run_race_example :
    (m : Manager) × Reachable m
    × (m.threads ≡ running "snapshot" handler ∷ running "snapshot" handler ∷ [])
begin_run_race_example = begin_run_race "snapshot" handler handler
