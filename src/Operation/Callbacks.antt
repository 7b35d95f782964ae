-- ===== src/Operation/Callbacks.antt =====
-- What a polled operation calls in the end.
use kahu.Operation.{Callback, on_failure, on_success, Handler, Polled, operate}
use kahu.Base.{
  String, ◌≡◌, refl, ◌⊎◌, inl, inr, Bool, true, false, none, some, List, [], ◌∷◌, ◌++◌, all, Error,
}

-- A poll that ends nothing: no success and no error.
unfoldable pub is_pending : Polled → Bool
is_pending (successful, some e) = false
is_pending (true, none) = false
is_pending (false, none) = true

-- An error wins over a success.
pub verdict : String → Polled → Callback
verdict name (successful, some e) = on_failure name e
verdict name (successful, none) = on_success name

module _ (name : String) (handler : Handler) where
  -- For a handler with both functions set, the loop over the answers of the polls returns exactly
  -- at the first one that is not pending, and has then made one call, the one for that answer;
  -- before that it has made none.
  pub operate_once :
      (rs : List Polled) (r : Polled) (later : List Polled)
      → handler.has_on_failure ≡ true
      → handler.has_on_success ≡ true
      → all is_pending rs ≡ true
      → is_pending r ≡ false
      → (operate name handler rs ≡ ([], false))
        × (operate name handler (rs ++ r ∷ later) ≡ (verdict name r ∷ [], true))
  unfolding operate all is_pending verdict
  operate_once [] (successful, some e) later f s h k = (refl, rw f refl)
  operate_once [] (true, none) later f s h k = (refl, rw s refl)
  operate_once [] (false, none) later f s h k = absurd (cc)
  operate_once ((false, none) ∷ rs) r later f s h k =
      let (before, after) = operate_once rs r later f s h k in (rw before refl, rw after refl)
  operate_once ((true, none) ∷ rs) r later f s h k = absurd (cc)
  operate_once ((successful, some e) ∷ rs) r later f s h k = absurd (cc)

  -- A poll after which the loop returns is a success or an error.
  pub operate-ends :
      (r : Polled)
      → (operate name handler (r ∷ [])).1 ≡ true
      → (r.0 ≡ true) ⊎ ((e : Error) × (r.1 ≡ some e))
  unfolding operate
  operate-ends (successful, some e) h = inr (e, refl)
  operate-ends (true, none) h = inl refl
  operate-ends (false, none) h = cc
