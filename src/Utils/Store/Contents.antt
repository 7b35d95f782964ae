-- ===== src/Utils/Store/Contents.antt =====
-- utils/store.go: the cache against a finite map, for any sequence of calls.
use mathlib.Core.Path.{fun_ext, ap₂}
use kahu.Utils.Store.{Item, StoreError, ThreadSafeStore, KeyFunc, add, update, delete, get}
use kahu.Base.{
  String, ◌≡◌, refl, ◌⊎◌, inl, inr, Option, none, some, List, [], ◌∷◌, arith, ◌==◌, if◌then◌else◌,
  Error, Result, ok, err, at_key, at_key-put, at_key-remove,
}

-- A call of a method, and what it returns.
pub data Request (Obj : Type 0) : Type 0 where
  add_request : Obj → Item → Request Obj
  update_request : Obj → Item → Request Obj
  delete_request : Obj → Request Obj
  get_request : Obj → Request Obj

pub data Reply : Type 0 where
  done : Option StoreError → Reply
  found : StoreError ⊎ Option Item → Reply

-- The abstract cache: a partial function from keys.
abbrev View : Type 0
View = String → Option Item

abbrev set_view : View → String → Option Item → View
set_view view k item j = if k == j then item else view j

abbrev with_key : {A : Type 0} → View → Result String → (Error → A) → (String → View × A) → View × A
with_key view (err e) failed f = (view, failed e)
with_key view (ok k) failed f = f k

module _ {Obj : Type 0} where
  serve : ThreadSafeStore Obj → Request Obj → ThreadSafeStore Obj × Reply
  serve store (add_request obj value) =
      let (after, failed) = add store obj value in (after, done failed)
  serve store (update_request obj value) =
      let (after, failed) = update store obj value in (after, done failed)
  serve store (delete_request obj) = let (after, failed) = delete store obj in (after, done failed)
  serve store (get_request obj) = (store, found (get store obj))

  pub serve_all : ThreadSafeStore Obj → List (Request Obj) → ThreadSafeStore Obj × List Reply
  serve_all store [] = (store, [])
  serve_all store (r ∷ rs) =
      let (after, reply) = serve store r in
      let (last, replies) = serve_all after rs in (last, reply ∷ replies)

  -- `Add` refuses a key that is there, `Update` one that is not; `Delete` takes both.
  specify : KeyFunc Obj → View → Request Obj → View × Reply
  specify key_func view (add_request obj value) =
      with_key view (key_func obj) (λ e. done (some (StoreError.bad_key e)))
        λ k. elim (view k) [
          | some _ ↦ (view, done (some (StoreError.already_exist k)))
          | none ↦ (set_view view k (some value), done none)
        ]
  specify key_func view (update_request obj value) =
      with_key view (key_func obj) (λ e. done (some (StoreError.bad_key e)))
        λ k. elim (view k) [
          | some _ ↦ (set_view view k (some value), done none)
          | none ↦ (view, done (some (StoreError.do_not_exist k)))
        ]
  specify key_func view (delete_request obj) =
      with_key view (key_func obj) (λ e. done (some (StoreError.bad_key e)))
        λ k. (set_view view k none, done none)
  specify key_func view (get_request obj) =
      with_key view (key_func obj) (λ e. found (inl (StoreError.bad_key e)))
        λ k. (view, found (inr (view k)))

  pub specify_all : KeyFunc Obj → View → List (Request Obj) → View × List Reply
  specify_all key_func view [] = (view, [])
  specify_all key_func view (r ∷ rs) =
      let (after, reply) = specify key_func view r in
      let (last, replies) = specify_all key_func after rs in (last, reply ∷ replies)

  abbrev pub view_of : ThreadSafeStore Obj → View
  view_of store = at_key store.items

  serve-key_func :
      (store : ThreadSafeStore Obj) (r : Request Obj) → (serve store r).0.key_func ≡ store.key_func
  unfolding serve add update delete
  serve-key_func store (add_request obj value) = ground arith
  serve-key_func store (update_request obj value) = ground arith
  serve-key_func store (delete_request obj) = ground arith
  serve-key_func store (get_request obj) = refl

  serve-reply :
      (store : ThreadSafeStore Obj) (r : Request Obj)
      → (serve store r).1 ≡ (specify store.key_func (view_of store) r).1
  unfolding serve specify add update delete get
  serve-reply store (add_request obj value) = ground arith
  serve-reply store (update_request obj value) = ground arith
  serve-reply store (delete_request obj) = ground arith
  serve-reply store (get_request obj) = ground arith

  serve-view :
      (store : ThreadSafeStore Obj) (r : Request Obj) (j : String)
      → view_of (serve store r).0 j ≡ (specify store.key_func (view_of store) r).0 j
  unfolding serve specify add update delete
  serve-view store (add_request obj value) j = grind (arith, at_key-put)
  serve-view store (update_request obj value) j = grind (arith, at_key-put)
  serve-view store (delete_request obj) j = grind (arith, at_key-remove)
  serve-view store (get_request obj) j = ground arith

  -- For every sequence of calls, the cache answers as the finite map does, and holds what the map
  -- holds at the end.
  pub serve_all-specify_all :
      (store : ThreadSafeStore Obj) (rs : List (Request Obj))
      → ((serve_all store rs).1 ≡ (specify_all store.key_func (view_of store) rs).1)
        × (view_of (serve_all store rs).0 ≡ (specify_all store.key_func (view_of store) rs).0)
  unfolding serve_all specify_all
  serve_all-specify_all store [] = (refl, refl)
  serve_all-specify_all store (r ∷ rs) =
      let (replies, view) = serve_all-specify_all (serve store r).0 rs in
      let replies' = rw (serve-key_func store r, fun_ext (serve-view store r)) at replies in
      let view' = rw (serve-key_func store r, fun_ext (serve-view store r)) at view in
      (ap₂ ◌∷◌ (serve-reply store r) replies', view')
