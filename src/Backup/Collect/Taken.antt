-- ===== src/Backup/Collect/Taken.antt =====
-- What the cache of a backup's resources holds before the dependencies are resolved.
use mathlib.Core.Path.{subst}
use kahu.Api.{Backup, BackupSpec}
use kahu.Unstructured.{Object}
use kahu.Backup.Cluster.{Lookup, found, not_found, lookup_error}
use kahu.Backup.Objects.{ObjectCache, ApiResource, Api, typed}
use kahu.Backup.Collect.Kinds.{is_wanted, filter_resources-wanted}
use kahu.Backup.Collect.Chosen.{IsChosen, choose-AllValues, AllValues}
use kahu.Backup.Collect.Adds.{All, Adds, and_next-Adds, add-Adds, add_objects-Adds}
use kahu.Backup.Collect.Listed.{IsListed, collected-IsListed}
use kahu.Backup.Collect.{
  is_resource_need_backup, choose_namespaces, converted_or_nil, with_resources,
  filtered_api_resources, and_next, add_namespaces, namespaces_listed, collect_namespaces,
  collect_namespace_resources, add_collected, collect_all, selector_of, with_selector,
  resources_filtered, collect, filter_resources,
}
use kahu.Base.{
  String, ◌≡◌, refl, ◌⊎◌, inl, inr, true, Option, none, some, List, [], ◌∷◌, keep, Error, Result,
  ok, err, Dict, Member, here, there, Member-keep, contains-Member,
}

module _ (oc : ObjectCache) {World : Type 0} (api : Api World) (w : World) where
  open oc use {Cache, empty, list, add, namespaces, list-empty, add-list, namespaces-list}
  open api use {scoped_resources, list_namespaces, list_objects, namespace_object, split, compile}

  -- An object that was listed in a chosen namespace for a resource of a kind that the backup takes,
  -- and that its specifications select.
  pub record IsTaken (backup : Backup) (o : Object) : Type 0 where
    pub resource : ApiResource
    pub namespace : String
    pub selector : String
    pub objects : List Object
    pub object : Object
    pub wanted : is_wanted split backup resource.kind ≡ true
    pub chosen : IsChosen backup.spec namespace
    pub listed : list_objects resource namespace selector w ≡ found objects
    pub member : Member object objects
    pub same : o ≡ typed resource object
    pub needed : is_resource_need_backup compile backup.spec o ≡ true

  -- A namespace that the backup takes.
  abbrev pub IsNamespace : BackupSpec → Object → Type 0
  IsNamespace spec o = (o.kind ≡ "Namespace") × IsChosen spec o.name

  -- What holds of all objects once the namespaces are searched.
  abbrev pub IsCollected : Backup → Object → Type 0
  IsCollected backup o = IsNamespace backup.spec o ⊎ IsTaken backup o

  listed-IsTaken :
      (backup : Backup) (rs : List ApiResource) (namespace selector : String) (o : Object)
      → ((r : ApiResource) → Member r rs → is_wanted split backup r.kind ≡ true)
      → IsChosen backup.spec namespace
      → IsListed oc api w rs namespace selector o
      → is_resource_need_backup compile backup.spec o ≡ true
      → IsTaken backup o
  listed-IsTaken backup rs namespace selector o h c (r, m, listed, e, o', m', t) n = record {
    resource = r;
    namespace = namespace;
    selector = selector;
    objects = listed;
    object = o';
    wanted = h r m;
    chosen = c;
    listed = e;
    member = m';
    same = t;
    needed = n;
  }

  add_collected-Adds :
      (backup : Backup) (rs : List ApiResource) (namespace selector : String)
      (r : Result (List Object)) (st : Cache)
      → collect_namespace_resources oc api w namespace rs selector ≡ r
      → ((r : ApiResource) → Member r rs → is_wanted split backup r.kind ≡ true)
      → IsChosen backup.spec namespace
      → All oc api w (IsCollected backup) st
      → Adds oc api w (IsCollected backup) (add_collected oc api w backup.spec namespace r st)
  unfolding add_collected
  add_collected-Adds backup rs namespace selector (err x) st e h c all_ = tt
  add_collected-Adds backup rs namespace selector (ok os) st e h c all_ =
      add_objects-Adds oc api w (IsCollected backup)
        (keep (is_resource_need_backup compile backup.spec) os) st
        (λ o m.
          let (m', n) = Member-keep (is_resource_need_backup compile backup.spec) os m in
          inr (
            listed-IsTaken backup rs namespace selector o h c
              (collected-IsListed oc api w rs namespace selector os e o m') n))
        all_

  collect_all-Adds :
      (backup : Backup) (rs : List ApiResource) (selector : String) (nss : List String) (st : Cache)
      → ((r : ApiResource) → Member r rs → is_wanted split backup r.kind ≡ true)
      → ((name : String) → Member name nss → IsChosen backup.spec name)
      → All oc api w (IsCollected backup) st
      → Adds oc api w (IsCollected backup) (collect_all oc api w backup.spec rs selector nss st)
  unfolding collect_all
  collect_all-Adds backup rs selector [] st h c all_ = all_
  collect_all-Adds backup rs selector (name ∷ nss) st h c all_ =
      and_next-Adds oc api w (IsCollected backup) (collect_all oc api w backup.spec rs selector nss)
        _ (add_collected-Adds backup rs name selector _ st refl h (c name here) all_)
        (λ st' all'. collect_all-Adds backup rs selector nss st' h (λ n m. c n (there m)) all')

module _ (oc : ObjectCache) {World : Type 0} (api : Api World) (w : World)
    (converts : (ns : Object)
      → (o : Object) × (api.namespace_object ns ≡ ok o)
        × (o.kind ≡ ns.kind)
        × (o.name ≡ ns.name)) where
  open oc use {Cache, empty, list, add, namespaces, list-empty, add-list, namespaces-list}
  open api use {scoped_resources, list_namespaces, list_objects, namespace_object, split, compile}

  add_namespaces-Adds :
      (spec : BackupSpec) (m : Dict Object) (st : Cache)
      → AllValues (λ ns. IsChosen spec ns.name) m
      → All oc api w (IsNamespace oc api w spec) st
      → Adds oc api w (IsNamespace oc api w spec) (add_namespaces oc api w m st)
  unfolding add_namespaces converted_or_nil
  add_namespaces-Adds spec [] st c h = h
  add_namespaces-Adds spec ((name, ns) ∷ m) st c h =
      let (o, e, kind, name_) = converts (record ns { kind = "Namespace"; api_version = "v1" }) in
      rw e (
        and_next-Adds oc api w (IsNamespace oc api w spec) (add_namespaces oc api w m) _
          (add-Adds oc api w (IsNamespace oc api w spec) o st (add o st) refl
            (kind, rw name_ (c (name, ns) here)) h)
          (λ st' h'. add_namespaces-Adds spec m st' (λ entry m'. c entry (there m')) h'))

  namespaces_listed-Adds :
      (spec : BackupSpec) (r : Lookup (List Object)) (st : Cache)
      → All oc api w (IsNamespace oc api w spec) st
      → Adds oc api w (IsNamespace oc api w spec) (namespaces_listed oc api w spec r st)
  unfolding namespaces_listed
  namespaces_listed-Adds spec (not_found e) st h = h
  namespaces_listed-Adds spec (lookup_error e) st h = tt
  namespaces_listed-Adds spec (found nss) st h =
      add_namespaces-Adds spec (choose_namespaces spec nss []) st
        (choose-AllValues spec nss [] (λ entry m. elim m [ ])) h

  -- The names that the index gives are those of chosen namespaces.
  names-IsChosen :
      (spec : BackupSpec) (st : Cache)
      → All oc api w (IsNamespace oc api w spec) st
      → (name : String) → Member name (namespaces st)
      → IsChosen spec name
  names-IsChosen spec st h name m =
      let (p, m', u, k, e) = (namespaces-list st name).0 (contains-Member (namespaces st) m) in
      subst (IsChosen spec) e (h p m').1

  with_selector-Adds :
      (backup : Backup) (rs : List ApiResource) (r : Result String) (st : Cache)
      → ((r : ApiResource) → Member r rs → is_wanted split backup r.kind ≡ true)
      → All oc api w (IsNamespace oc api w backup.spec) st
      → Adds oc api w (IsCollected oc api w backup) (with_selector oc api w backup.spec rs r st)
  unfolding with_selector
  with_selector-Adds backup rs (err e) st h n = tt
  with_selector-Adds backup rs (ok selector) st h n =
      collect_all-Adds oc api w backup rs selector (namespaces st) st h
        (names-IsChosen backup.spec st n) (λ o m. inl (n o m))

  selected-Adds :
      (backup : Backup) (rs : List ApiResource) (r : Cache × Option Error)
      → ((r : ApiResource) → Member r rs → is_wanted split backup r.kind ≡ true)
      → Adds oc api w (IsNamespace oc api w backup.spec) r
      → Adds oc api w (IsCollected oc api w backup) (
          and_next oc api w
            (with_selector oc api w backup.spec rs (selector_of oc api w backup.spec.label))
            r)
  unfolding and_next
  selected-Adds backup rs (st, none) h n = with_selector-Adds backup rs _ st h n
  selected-Adds backup rs (st, some e) h n = tt

  resources-Adds :
      (backup : Backup) (r : Result (List ApiResource)) (st : Cache)
      → All oc api w (IsNamespace oc api w backup.spec) st
      → Adds oc api w
          (IsCollected oc api w backup)
          (resources_filtered oc api w backup.spec (with_resources oc api w backup r) st)
  unfolding with_resources resources_filtered collect_namespaces
  resources-Adds backup (err e) st h = tt
  resources-Adds backup (ok rs) st h =
      selected-Adds backup (filter_resources split backup rs) _
        (λ r m.
          (Member-keep (λ r. is_wanted split backup r.kind) rs
            (subst (λ l. Member r l) (filter_resources-wanted split backup rs) m)).1)
        (namespaces_listed-Adds backup.spec _ st h)

  Adds-All :
      (P : Object → Type 0) (r : Cache × Option Error)
      → Adds oc api w P r
      → r.1 ≡ none
      → All oc api w P r.0
  Adds-All P (st, none) h e = h
  Adds-All P (st, some x) h e = cc

  -- Where the collection reports no error, each object of the cache is a namespace that the backup
  -- chooses, or was listed in a chosen namespace for a kind that the backup takes and is selected by
  -- its specifications. The conversion of a namespace keeps its kind and name.
  pub collect_sound :
      (backup : Backup)
      → (collect oc api w backup empty).1 ≡ none
      → (o : Object) → Member o (list (collect oc api w backup empty).0)
      → IsNamespace oc api w backup.spec o ⊎ IsTaken oc api w backup o
  unfolding collect filtered_api_resources
  collect_sound backup e =
      Adds-All (IsCollected oc api w backup) (collect oc api w backup empty)
        (resources-Adds backup (scoped_resources w) empty
          (λ o m. elim (subst (λ l. Member o l) list-empty m) [ ]))
        e
