-- ===== src/Utils/Store.antt =====
-- utils/store.go: the keyed cache of the controllers, and the revision check on top of it.
-- Each method holds the lock from its first line to its last, so it is one step on the state.
pub mod Revision
pub mod Contents
pub mod Newest
mod Examples
use kahu.Base.{
  String, ◌⊎◌, inl, inr, Option, none, some, List, [], map, Error, Result, ok, err, Dict, at_key,
  put, remove,
}

-- What an `interface{}` in the cache holds: a text, or a value of another type.
pub data Item : Type 0 where
  text : String → Item
  foreign : Item

-- `StoreError` without its object, which is the argument that the caller gave.
pub data StoreError : Type 0 where
  bad_key : Error → StoreError
  already_exist : String → StoreError
  do_not_exist : String → StoreError

-- `threadSafeStore`. The key function is a field that no method changes.
pub record ThreadSafeStore (Obj : Type 0) : Type 0 where
  pub items : Dict Item
  pub key_func : Obj → Result String

abbrev pub KeyFunc : Type 0 → Type 0
KeyFunc Obj = Obj → Result String

pub new_store : {Obj : Type 0} → KeyFunc Obj → ThreadSafeStore Obj
new_store key_func = record { items = []; key_func = key_func }

module _ {Obj : Type 0} where
  add_key : ThreadSafeStore Obj → String → Item → ThreadSafeStore Obj × Option StoreError
  add_key store key value = elim (at_key store.items key) [
    | some _ ↦ (store, some (already_exist key))
    | none ↦ (record store { items = put store.items key value }, none)
  ]

  unfoldable pub add : ThreadSafeStore Obj → Obj → Item → ThreadSafeStore Obj × Option StoreError
  unfolding add_key
  add store obj value = elim (store.key_func obj) [
    | err e ↦ (store, some (bad_key e))
    | ok key ↦ add_key store key value
  ]

  update_key : ThreadSafeStore Obj → String → Item → ThreadSafeStore Obj × Option StoreError
  update_key store key value = elim (at_key store.items key) [
    | none ↦ (store, some (do_not_exist key))
    | some _ ↦ (record store { items = put store.items key value }, none)
  ]

  pub update : ThreadSafeStore Obj → Obj → Item → ThreadSafeStore Obj × Option StoreError
  unfolding update_key
  update store obj value = elim (store.key_func obj) [
    | err e ↦ (store, some (bad_key e))
    | ok key ↦ update_key store key value
  ]

  pub delete : ThreadSafeStore Obj → Obj → ThreadSafeStore Obj × Option StoreError
  delete store obj = elim (store.key_func obj) [
    | err e ↦ (store, some (bad_key e))
    | ok key ↦ (record store { items = remove store.items key }, none)
  ]

  -- The item and whether it exists are one option; the left side is the error.
  unfoldable pub get : ThreadSafeStore Obj → Obj → StoreError ⊎ Option Item
  get store obj = elim (store.key_func obj) [
    | err e ↦ inl (bad_key e)
    | ok key ↦ inr (at_key store.items key)
  ]

  pub list : ThreadSafeStore Obj → List Item
  list store = map (λ entry. entry.1) store.items

  pub list_keys : ThreadSafeStore Obj → List String
  list_keys store = map (λ entry. entry.0) store.items
