-- ===== src/Base/Results.antt =====
-- Go's `error` as a value with the text that it prints, and results that are a value or an error.
use Prim.Native.String.{String, ◌++◌ as append}
use mathlib.Core.Path.{◌≡◌, refl}
use mathlib.Core.Logic.{◌⊎◌, inl, inr}

pub data Error : Type 0 where
  message : String → Error
  wrap : Error → String → Error

-- The text of an error, as the `%s` of a format prints it.
pub text_of : Error → String
text_of (message s) = s
text_of (wrap e s) = append s (append ": " (text_of e))

pub data Result (A : Type 0) : Type 0 where
  ok : A → Result A
  err : Error → Result A

pub Result-cases :
    {A : Type 0} (r : Result A) → ((a : A) × (r ≡ ok a)) ⊎ ((e : Error) × (r ≡ err e))
Result-cases (ok a) = inl (a, refl)
Result-cases (err e) = inr (e, refl)

-- What ends a handler early: a returned error, a nil pointer that is read, or a recursion that is
-- deeper than the stack.
pub data Fault : Type 0 where
  raised : Error → Fault
  nil_pointer stack_overflow : Fault

-- `errors.Wrap`, where the error is returned; the other faults pass it by.
abbrev pub wrap_fault : Fault → String → Fault
wrap_fault (raised e) context = raised (wrap e context)
wrap_fault nil_pointer context = nil_pointer
wrap_fault stack_overflow context = stack_overflow
