-- ===== src/Operation.antt =====
-- utils/operation/manager.go: operations that are polled in the background, one goroutine each.
pub mod Callbacks
pub mod Threads
mod Examples
use kahu.Base.{
  String, Bool, true, false, Option, none, some, List, [], ◌∷◌, ◌++◌, if◌then◌else◌, Error, message,
  Dict, at_key, put, remove,
}

-- A call of one of the handler's functions.
pub data Callback : Type 0 where
  on_failure : String → Error → Callback
  on_success : String → Callback

-- Whether the fields `OnFailure` and `OnSuccess` are set. What `Operation` answers is given at
-- each poll.
pub record Handler : Type 0 where
  pub has_on_failure : Bool
  pub has_on_success : Bool

-- The two results of `Operation`.
abbrev pub Polled : Type 0
Polled = Bool × Option Error

-- Whether to go on, and the calls made.
operation_handler : String → Handler → Polled → Bool × List Callback
operation_handler name handler (successful, some e) =
    (false, if handler.has_on_failure then on_failure name e ∷ [] else [])
operation_handler name handler (true, none) =
    (false, if handler.has_on_success then on_success name ∷ [] else [])
operation_handler name handler (false, none) = (true, [])

-- The loop, on the answers of the polls so far: the calls made, and whether it has returned.
unfoldable pub operate : String → Handler → List Polled → List Callback × Bool
unfolding operation_handler
operate name handler [] = ([], false)
operate name handler (r ∷ rs) =
    let (more, calls) = operation_handler name handler r in
    let (later, returned) = operate name handler rs in
    if more then (calls ++ later, returned) else (calls, true)

-- Where a call of `Run` or its goroutine stands: past the test `ops.get`, in the loop, or past it.
pub data Thread : Type 0 where
  checked : String → Handler → Thread
  running : String → Handler → Thread
  ended : String → Thread

-- The manager with its threads. The callbacks are the newest first.
pub record Manager : Type 0 where
  pub ops : Dict Handler
  pub threads : List Thread
  pub callbacks : List Callback

pub new_manager : Manager
new_manager = record { ops = []; threads = []; callbacks = [] }

-- `Run` up to the end of `ops.get`, which is all that its first locked section holds.
pub begin_run : String → Handler → Manager → Manager × Option Error
begin_run index handler m = elim (at_key m.ops index) [
  | some _ ↦ (m, some (message "An operation with that name is already exist."))
  | none ↦ (record m { threads = checked index handler ∷ m.threads }, none)
]

-- The next locked section or poll of a thread: the threads that are left of it, the operations
-- after it, and the calls made.
pub advance : Polled → Thread → Dict Handler → List Thread × Dict Handler × List Callback
unfolding operation_handler
advance r (checked index handler) ops = (running index handler ∷ [], put ops index handler, [])
advance r (running index handler) ops =
    let (more, calls) = operation_handler index handler r in
    ((if more then running index handler else ended index) ∷ [], ops, calls)
advance r (ended index) ops = ([], remove ops index, [])

-- The steps that any interleaving is made of: a new call of `Run`, or one thread's next section.
pub data Step : Manager → Manager → Type 0 where
  started :
      (index : String) (handler : Handler) (m : Manager) → Step m (begin_run index handler m).0
  advanced :
      (r : Polled) (xs : List Thread) (t : Thread) (ys : List Thread) (ops : Dict Handler)
      (calls : List Callback)
      → Step
          (record { ops = ops; threads = xs ++ t ∷ ys; callbacks = calls })
          (record {
            ops = (advance r t ops).1;
            threads = xs ++ ((advance r t ops).0 ++ ys);
            callbacks = (advance r t ops).2 ++ calls;
          })

pub data Reachable : Manager → Type 0 where
  initially : Reachable new_manager
  then_step : {m m' : Manager} → Reachable m → Step m m' → Reachable m'
