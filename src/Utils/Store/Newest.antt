-- ===== src/Utils/Store/Newest.antt =====
-- utils/store.go: what `StoreRevisionUpdate` keeps over any sequence of objects.
use kahu.Base.Integer.{ℤ, int_lt, parse_int}
use kahu.Utils.Store.{Item, text, foreign, ThreadSafeStore, KeyFunc, new_store, add, update, get}
use kahu.Utils.Store.Revision.{Meta, store_revision_update}
use kahu.Base.{
  String, ◌≡◌, refl, ap, ◌∙◌, inl, inr, Bool, true, false, not, Option, none, some, List, [], ◌∷◌,
  arith, eq_iff, ◌==◌, if◌then◌else◌, Bool-cases, Option-cases, Error, message, Result, ok, err,
  at_key, put, at_key-put,
}

-- The revision that an item stands for.
abbrev revision_of : Item → Option ℤ
revision_of (text r) = parse_int r
revision_of foreign = none

abbrev revision_in : Option Item → Option ℤ
revision_in none = none
revision_in (some i) = revision_of i

module _ {Obj : Type 0} where
  abbrev pub revision_at : ThreadSafeStore Obj → String → Option ℤ
  revision_at store k = revision_in (at_key store.items k)

  -- Every cached item is a revision.
  abbrev pub IsReadable : ThreadSafeStore Obj → Type 0
  IsReadable store =
      (k : String) (i : Item) → at_key store.items k ≡ some i → (n : ℤ) × (revision_of i ≡ some n)

  -- An object with a key and a revision, as the store and the helpers read them.
  pub record IsStamped (meta : Meta Obj) (key_func : KeyFunc Obj) (obj : Obj) (k : String) (n : ℤ)
      : Type 0 where
    pub keyed : meta.meta_key obj ≡ ok k
    pub same_key : key_func obj ≡ ok k
    pub version : String
    pub versioned : meta.resource_version obj ≡ ok version
    pub parsed : parse_int version ≡ some n

-- The newer of the cached revision and a new one; on a tie they are the same.
abbrev pub later : Option ℤ → ℤ → ℤ
later none n = n
later (some m) n = if int_lt n m then m else n

abbrev pub is_older : ℤ → Option ℤ → Bool
is_older n none = false
is_older n (some m) = int_lt n m

module _ {Obj : Type 0} where
  -- What a call leaves and returns, by whether the object is older than the cache.
  abbrev settle : ThreadSafeStore Obj → String → String → Bool → ThreadSafeStore Obj × Result Bool
  settle store k version true = (store, ok false)
  settle store k version false =
      (record store { items = put store.items k (text version) }, ok true)

module _ {Obj : Type 0} (meta : Meta Obj) (store : ThreadSafeStore Obj) (obj : Obj) (k : String)
    (n : ℤ) (h : IsStamped meta store.key_func obj k n) where
  settle_new :
      at_key store.items k ≡ none
      → store_revision_update meta store obj ≡ settle store k h.version false
  unfolding store_revision_update add get
  settle_new e = ground (arith, h.keyed, h.same_key, h.versioned)

  settle_known :
      (i : Item) (m : ℤ)
      → at_key store.items k ≡ some i
      → revision_of i ≡ some m
      → store_revision_update meta store obj ≡ settle store k h.version (int_lt n m)
  unfolding store_revision_update update get
  settle_known foreign m e r = cc
  settle_known (text old) m e r = ground (arith, h.keyed, h.same_key, h.versioned, h.parsed)

  store_revision_update-settle :
      IsReadable store
      → store_revision_update meta store obj
        ≡ settle store k h.version (is_older n (revision_at store k))
  store_revision_update-settle readable = elim (Option-cases (at_key store.items k)) [
    | inl e ↦ rw e (settle_new e)
    | inr (i, e) ↦ let (m, r) = readable k i e in rw (e, revision_in, r) (settle_known i m e r)
  ]

module _ {Obj : Type 0} (store : ThreadSafeStore Obj) (k version : String) (n : ℤ)
    (parsed : parse_int version ≡ some n) where
  settle-revision_at :
      (o : Option ℤ) (j : String)
      → revision_at store k ≡ o
      → revision_at (settle store k version (is_older n o)).0 j
        ≡ (if k == j then some (later (revision_at store j) n) else revision_at store j)
  settle-revision_at none j e =
      ground (arith, at_key-put store.items k j (text version), eq_iff k j, parsed)
  settle-revision_at (some m) j e =
      ground (arith, at_key-put store.items k j (text version), eq_iff k j, parsed)

  settle-IsReadable : (b : Bool) → IsReadable store → IsReadable (settle store k version b).0
  settle-IsReadable true readable = readable
  settle-IsReadable false readable = λ j i e.
      let e' = rw at_key-put at e in
      elim (Bool-cases (k == j)) [
        | inl same ↦ (n, ground (arith, parsed))
        | inr other ↦ readable j i (ground arith)
      ]

-- A sequence of calls, with what each returns.
pub update_all :
    {Obj : Type 0}
    → Meta Obj
    → ThreadSafeStore Obj
    → List Obj
    → ThreadSafeStore Obj × List (Result Bool)
update_all meta store [] = (store, [])
update_all meta store (o ∷ os) =
    let (after, fresh) = store_revision_update meta store o in
    let (last, rest) = update_all meta after os in (last, fresh ∷ rest)

-- An object's key and revision, read off beforehand.
abbrev Stamp : Type 0
Stamp = String × ℤ

-- The newest revision of a key among those cached and those given.
pub newest : String → Option ℤ → List Stamp → Option ℤ
newest k o [] = o
newest k o ((j, n) ∷ ss) = newest k (if j == k then some (later o n) else o) ss

-- The objects of a list bear the stamps of a list.
pub data AreStamped {Obj : Type 0} (meta : Meta Obj) (key_func : KeyFunc Obj)
    : List Obj → List Stamp → Type 0 where
  nil : AreStamped meta key_func [] []
  cons :
      {o : Obj} {os : List Obj} {k : String} {n : ℤ} {ss : List Stamp}
      → IsStamped meta key_func o k n
      → AreStamped meta key_func os ss
      → AreStamped meta key_func (o ∷ os) ((k, n) ∷ ss)

module _ {Obj : Type 0} (meta : Meta Obj) where
  -- A call on an object whose revision parses says `true` exactly when no newer revision is cached
  -- under its key. The cache then holds the newer of the two under that key, and every other key
  -- is untouched.
  pub store_revision_update-newer :
      (store : ThreadSafeStore Obj) (obj : Obj) (k : String) (n : ℤ)
      → IsStamped meta store.key_func obj k n
      → IsReadable store
      → ((store_revision_update meta store obj).1 ≡ ok (not (is_older n (revision_at store k))))
        × ((j : String)
            → revision_at (store_revision_update meta store obj).0 j
              ≡ (if k == j then some (later (revision_at store j) n) else revision_at store j))
  store_revision_update-newer store obj k n h readable =
      rw (store_revision_update-settle meta store obj k n h readable) (
        settle-fresh (is_older n (revision_at store k)),
        λ j. settle-revision_at store k h.version n h.parsed (revision_at store k) j refl,
      )
    where
      settle-fresh : (b : Bool) → (settle store k h.version b).1 ≡ ok (not b)
      settle-fresh true = refl
      settle-fresh false = refl

  settle-key_func :
      (store : ThreadSafeStore Obj) (k version : String) (b : Bool)
      → (settle store k version b).0.key_func ≡ store.key_func
  settle-key_func store k version true = refl
  settle-key_func store k version false = refl

  update_all-newest_from :
      {key_func : KeyFunc Obj} {os : List Obj} {ss : List Stamp} (store : ThreadSafeStore Obj)
      → store.key_func ≡ key_func
      → AreStamped meta key_func os ss
      → IsReadable store
      → (k : String)
      → revision_at (update_all meta store os).0 k ≡ newest k (revision_at store k) ss
  unfolding update_all newest
  update_all-newest_from store same nil readable k = refl
  update_all-newest_from store same (cons {o = o} {k = j} {n = n} {ss = ss} h' hs) readable k =
      let h : IsStamped meta store.key_func o j n = rw same h' in
      let older = is_older n (revision_at store j) in
      let after = (settle store j h.version older).0 in
      let ih =
        update_all-newest_from after (settle-key_func store j h.version older ∙ same) hs
          (settle-IsReadable store j h.version n h.parsed older readable) k in
      rw (store_revision_update-settle meta store o j n h readable) (
        ih
        ∙ ap (λ r. newest k r ss)
            (settle-revision_at store j h.version n h.parsed (revision_at store j) k refl))

-- From an empty cache, after any sequence of objects with revisions that parse, the cache holds
-- under each key the newest revision of that key in the sequence, and nothing under any other key.
pub update_all-newest :
    {Obj : Type 0} (meta : Meta Obj) (key_func : KeyFunc Obj) (os : List Obj) (ss : List Stamp)
    → AreStamped meta key_func os ss
    → (k : String) → revision_at (update_all meta (new_store key_func) os).0 k ≡ newest k none ss
unfolding new_store at_key
update_all-newest meta key_func os ss h k =
    update_all-newest_from meta (new_store key_func) refl h (λ j i e. cc) k

-- The first revision of a key is cached without being parsed. Where it does not parse, every later
-- object with that key is answered with an error and the cache stays as it is.
pub unreadable_stays :
    {Obj : Type 0} (meta : Meta Obj) (store : ThreadSafeStore Obj) (obj : Obj) {k stored : String}
    → meta.meta_key obj ≡ ok k
    → store.key_func obj ≡ ok k
    → at_key store.items k ≡ some (text stored)
    → parse_int stored ≡ none
    → (e : Error) × (store_revision_update meta store obj ≡ (store, err e))
unfolding store_revision_update update get
unreadable_stays meta store obj {stored = stored} keyed same_key cached unread =
    go (meta.resource_version obj) refl
  where
    go :
        (version : Result String)
        → meta.resource_version obj ≡ version
        → (e : Error) × (store_revision_update meta store obj ≡ (store, err e))
    go (err e) v = (e, ground (arith, keyed, same_key, cached, v))
    go (ok version) v = go_parsed (parse_int version) refl
      where
        go_parsed :
            (o : Option ℤ)
            → parse_int version ≡ o
            → (e : Error) × (store_revision_update meta store obj ≡ (store, err e))
        go_parsed none p =
            (message "error parsing ResourceVersion", ground (arith, keyed, same_key, cached, v, p))
        go_parsed (some n) p = (
          message "error parsing old ResourceVersion",
          ground (arith, keyed, same_key, cached, v, p, unread),
        )

-- A call on an object with an older revision than the cached one.
pub store_revision_update_stale :
    {Obj : Type 0} (meta : Meta Obj) (store : ThreadSafeStore Obj) (obj : Obj) (k : String) (n : ℤ)
    → IsStamped meta store.key_func obj k n
    → IsReadable store
    → is_older n (revision_at store k) ≡ true
    → store_revision_update meta store obj ≡ (store, ok false)
store_revision_update_stale meta store obj k n h readable older =
    rw (store_revision_update-settle meta store obj k n h readable, older)

-- A call on an object with a key that the cache lacks.
pub store_revision_update_unknown :
    {Obj : Type 0} (meta : Meta Obj) (store : ThreadSafeStore Obj) (obj : Obj) {k version : String}
    → meta.meta_key obj ≡ ok k
    → store.key_func obj ≡ ok k
    → meta.resource_version obj ≡ ok version
    → at_key store.items k ≡ none
    → store_revision_update meta store obj
      ≡ (record store { items = put store.items k (text version) }, ok true)
unfolding store_revision_update add get
store_revision_update_unknown meta store obj keyed same_key versioned unknown =
    ground (arith, keyed, same_key, versioned, unknown)
