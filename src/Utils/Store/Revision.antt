-- ===== src/Utils/Store/Revision.antt =====
-- utils/store.go: `StoreRevisionUpdate` and `StoreClean`. The key function and the accessor of
-- the resource version come from client-go and apimachinery, and are parameters.
use kahu.Base.Integer.{int_lt, parse_int}
use kahu.Utils.Store.{
  Item, text, foreign, StoreError, ThreadSafeStore, KeyFunc, add, update, delete, get,
}
use kahu.Base.{
  String, inl, inr, Bool, true, false, not, Option, none, some, Error, message, wrap, Result, ok,
  err,
}

-- `fmt.Errorf` with `%w`: the text names what was tried.
abbrev of_store_error : String → StoreError → Error
of_store_error context (StoreError.bad_key e) = wrap e context
of_store_error context (StoreError.already_exist key) = wrap (message key) context
of_store_error context (StoreError.do_not_exist key) = wrap (message key) context

-- `revisionAccessor`
revision_accessor : Item → Result String
revision_accessor (text revision) = ok revision
revision_accessor foreign = err (message "invalid revision type")

-- What apimachinery reads of an object.
pub record Meta (Obj : Type 0) : Type 0 where
  pub meta_key : KeyFunc Obj
  pub resource_version : Obj → Result String

-- Both revisions are parsed, the object's first.
compare_revisions : String → String → Result Bool
compare_revisions current old = elim (parse_int current) [
  | none ↦ err (message "error parsing ResourceVersion")
  | some new ↦ elim (parse_int old) [
    | none ↦ err (message "error parsing old ResourceVersion")
    | some stored ↦ ok (not (int_lt new stored))
  ]
]

module _ {Obj : Type 0} where
  -- The end of a call that writes: `(true, nil)`, or the error of the store.
  written : String → ThreadSafeStore Obj × Option StoreError → ThreadSafeStore Obj × Result Bool
  written context (store, none) = (store, ok true)
  written context (store, some e) = (store, err (of_store_error context e))

  -- The part for an object that the cache knows.
  update_known : ThreadSafeStore Obj → Obj → String → Item → ThreadSafeStore Obj × Result Bool
  unfolding written compare_revisions revision_accessor
  update_known store obj current old = elim (revision_accessor old) [
    | err e ↦ (store, err e)
    | ok revision ↦ elim (compare_revisions current revision) [
      | err e ↦ (store, err e)
      | ok false ↦ (store, ok false)
      | ok true ↦ written "error updating in controller cache" (update store obj (text current))
    ]
  ]

  update_found :
      ThreadSafeStore Obj → Obj → Option Item → Result String → ThreadSafeStore Obj × Result Bool
  unfolding update_known
  update_found store obj found (err e) = (store, err e)
  update_found store obj none (ok current) =
      written "error adding to controller cache" (add store obj (text current))
  update_found store obj (some old) (ok current) = update_known store obj current old

  unfoldable pub store_revision_update :
      Meta Obj → ThreadSafeStore Obj → Obj → ThreadSafeStore Obj × Result Bool
  unfolding update_found
  store_revision_update meta store obj = elim (meta.meta_key obj) [
    | err e ↦ (store, err (wrap e "couldn't get key for object"))
    | ok _ ↦ elim (get store obj) [
      | inl e ↦ (store, err (of_store_error "error finding in controller cache" e))
      | inr found ↦ update_found store obj found (meta.resource_version obj)
    ]
  ]

  -- `StoreClean`: an object that is not cached is no error.
  unfoldable pub store_clean :
      Meta Obj → ThreadSafeStore Obj → Obj → ThreadSafeStore Obj × Option Error
  store_clean meta store obj = elim (meta.meta_key obj) [
    | err e ↦ (store, some (wrap e "couldn't get key for object"))
    | ok _ ↦ elim (get store obj) [
      | inl e ↦ (store, some (of_store_error "error finding in cache" e))
      | inr none ↦ (store, none)
      | inr (some _) ↦
          let (after, failed) = delete store obj in
          (
            after,
            elim failed [
              | none ↦ none
              | some e ↦ some (of_store_error "couldn't store key for object" e)
            ],
          )
    ]
  ]
