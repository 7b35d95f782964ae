-- ===== src/Restore/Content/Taken.antt =====
-- What comes into the cache of a backup's objects.
use kahu.Restore.Filters.{Object, Indexer, same_key}
use kahu.Restore.Cluster.{Cluster}
use kahu.Restore.Content.{exclude_resource, and_rest, with_object, get_content}
use kahu.Base.{
  String, ◌≡◌, refl, sym, ap, ◌∙◌, ◌≢◌, ◌⊎◌, inl, inr, Bool, true, false, not, ◌&&◌, ◌||◌, Option,
  none, some, List, [], ◌∷◌, arith, eq_iff, eq_refl, ◌==◌, Bool-cases, keep, any, contains, Error,
  Result, ok, err, Member, here, there, Member-cons,
}

-- No node, no namespace, no event, and not the service of the API server.
pub record IsRestorable (o : Object) : Type 0 where
  pub no_node : o.kind ≢ "Node"
  pub no_namespace : o.kind ≢ "Namespace"
  pub no_event : o.kind ≢ "Event"
  pub no_api_service : o.kind ≡ "Service" → o.name ≢ "kubernetes"

included-IsRestorable : (o : Object) → exclude_resource o ≡ false → IsRestorable o
unfolding exclude_resource contains
included-IsRestorable o h = record {
  no_node = λ e. absurd (ground (arith, h, eq_iff "Node" o.kind, sym e));
  no_namespace = λ e. absurd (ground (arith, h, eq_iff "Namespace" o.kind, sym e));
  no_event = λ e. absurd (ground (arith, h, eq_iff "Event" o.kind, sym e));
  no_api_service =
      λ k n. absurd (ground (arith, h, eq_iff o.kind "Service", eq_iff o.name "kubernetes", k, n));
}

differs : (s t : String) → s ≢ t → (s == t) ≡ false
differs s t h = elim (Bool-cases (s == t)) [ inl e ↦ absurd (h ((eq_iff s t).0 e)) | inr f ↦ f ]

no_api_service-differs :
    (o : Object) → IsRestorable o → ((o.kind == "Service") && (o.name == "kubernetes")) ≡ false
no_api_service-differs o r = elim (Bool-cases (o.kind == "Service")) [
  | inl e ↦ rw e (differs o.name "kubernetes" (r.no_api_service ((eq_iff o.kind "Service").0 e)))
  | inr f ↦ rw f refl
]

IsRestorable-included : (o : Object) → IsRestorable o → exclude_resource o ≡ false
unfolding exclude_resource contains
IsRestorable-included o r = ground (
  arith,
  no_api_service-differs o r,
  differs "Node" o.kind (λ e. r.no_node (sym e)),
  differs "Namespace" o.kind (λ e. r.no_namespace (sym e)),
  differs "Event" o.kind (λ e. r.no_event (sym e)),
)

keep-any : (f q : Object → Bool) (os : List Object) → any f (keep q os) ≡ true → any f os ≡ true
unfolding any keep
keep-any f q [] h = cc
keep-any f q (o ∷ os) h = ground (arith, keep-any f q os)

replaced :
    (o p : Object) (os : List Object)
    → any (λ q. same_key q o) os ≡ true
    → (same_key p o || any (λ q. same_key q o) (keep (λ q. not (same_key q p)) os)) ≡ true
unfolding any keep same_key
replaced o p [] h = cc
replaced o p (q ∷ os) h =
    ground (arith, replaced o p os, eq_iff q.uid o.uid, eq_iff q.uid p.uid, eq_iff p.uid o.uid)

put_there :
    (o p : Object) (os : List Object)
    → o ≡ p
    → (same_key o p || any (λ q. same_key q p) (keep (λ q. not (same_key q o)) os)) ≡ true
unfolding same_key
put_there o p os e = rw e (simp (eq_refl) refl)

module _ (ix : Indexer) (c : Cluster ix.Cache) where
  open ix use {Cache, list, add}

  -- A message of the stream holds a restorable object that passes the test.
  pub record IsSent (messages : List String) (p : Object → Bool) : Type 0 where
    pub message_sent : String
    pub sent : Member message_sent messages
    pub object : Object
    pub unmarshalled : c.unmarshal message_sent ≡ ok object
    pub passes : p object ≡ true
    pub restorable : IsRestorable object

  IsSent-there :
      {m : String} {ms : List String} {p : Object → Bool} → IsSent ms p → IsSent (m ∷ ms) p
  IsSent-there sent = record {
    message_sent = sent.message_sent;
    sent = there sent.sent;
    object = sent.object;
    unmarshalled = sent.unmarshalled;
    passes = sent.passes;
    restorable = sent.restorable;
  }

  abbrev Has : Object → Cache → Type 0
  Has o st = any (λ q. same_key q o) (list st) ≡ true

  -- From one cache to another: what is new was sent, and what was there or was sent stays.
  record Takes (messages : List String) (st st' : Cache) : Type 0 where
    only :
        (p : Object → Bool) → any p (list st') ≡ true → any p (list st) ≡ true ⊎ IsSent messages p
    stays : (o : Object) → Has o st → Has o st'
    each :
        (m : String) (o : Object)
        → Member m messages
        → c.unmarshal m ≡ ok o
        → IsRestorable o
        → Has o st'

  add-Takes :
      (m : String) (ms : List String) (o : Object) (st st' st'' : Cache)
      → c.unmarshal m ≡ ok o
      → add o st ≡ (st', none)
      → IsRestorable o
      → Takes ms st' st''
      → Takes (m ∷ ms) st st''
  unfolding any
  add-Takes m ms o st st' st'' u e r takes = record {
    only = λ p h. elim (takes.only p h) [
      | inl h' ↦ elim (Bool-cases (p o)) [
        | inl t ↦ inr (record {
          message_sent = m;
          sent = here;
          object = o;
          unmarshalled = u;
          passes = t;
          restorable = r;
        })
        | inr f ↦ inl (
            keep-any p (λ q. not (same_key q o)) (list st)
              (ground (arith, h', f, ix.add-list o st e p)))
      ]
      | inr sent ↦ inr (IsSent-there sent)
    ];
    stays = λ o' h.
        takes.stays o' (ix.add-list o st e (λ q. same_key q o') ∙ replaced o' o (list st) h);
    each = λ m' o' member u' r'.
        Member-cons (λ x. c.unmarshal x ≡ ok o' → Has o' st'')
          (λ v.
            let same : o ≡ o' = cc in
            takes.stays o'
              (ix.add-list o st e (λ q. same_key q o') ∙ put_there o o' (list st) same))
          (λ x member' v. takes.each x o' member' v r') m' member u';
  }

  skip-Takes :
      (m : String) (ms : List String) (o : Object) (st st' : Cache)
      → c.unmarshal m ≡ ok o
      → exclude_resource o ≡ true
      → Takes ms st st'
      → Takes (m ∷ ms) st st'
  skip-Takes m ms o st st' u x takes = record {
    only = λ p h. elim (takes.only p h) [ inl h' ↦ inl h' | inr sent ↦ inr (IsSent-there sent) ];
    stays = takes.stays;
    each = λ m' o' member u' r'.
        Member-cons (λ x. c.unmarshal x ≡ ok o' → Has o' st')
          (λ v. let same : o ≡ o' = cc in let included = IsRestorable-included o' r' in absurd (cc))
          (λ x member' v. takes.each x o' member' v r') m' member u';
  }

  rest-Takes :
      (m : String) (ms : List String) (o : Object) (st : Cache)
      (rest : Cache → Cache × Option Error) (r : Cache × Option Error)
      → c.unmarshal m ≡ ok o
      → add o st ≡ r
      → IsRestorable o
      → ((st : Cache) → (rest st).1 ≡ none → Takes ms st (rest st).0)
      → (and_rest ix c rest r).1 ≡ none
      → Takes (m ∷ ms) st (and_rest ix c rest r).0
  unfolding and_rest
  rest-Takes m ms o st rest (st', none) u e r h ended =
      add-Takes m ms o st st' _ u e r (h st' ended)
  rest-Takes m ms o st rest (st', some p) u e r h ended = cc

  object-Takes :
      (m : String) (ms : List String) (rest : Cache → Cache × Option Error) (r : Result Object)
      (st : Cache)
      → c.unmarshal m ≡ r
      → ((st : Cache) → (rest st).1 ≡ none → Takes ms st (rest st).0)
      → (with_object ix c rest r st).1 ≡ none
      → Takes (m ∷ ms) st (with_object ix c rest r st).0
  unfolding with_object
  object-Takes m ms rest (err e) st u h ended = cc
  object-Takes m ms rest (ok o) st u h ended = elim (Bool-cases (exclude_resource o)) [
    | inl t ↦ rw t (skip-Takes m ms o st _ u t (h st (rw t at ended)))
    | inr f ↦
        rw f (rest-Takes m ms o st rest _ u refl (included-IsRestorable o f) h (rw f at ended))
  ]

  content-Takes :
      (ms : List String) (ending : Option Error) (st : Cache)
      → (get_content ix c ms ending st).1 ≡ none
      → Takes ms st (get_content ix c ms ending st).0
  unfolding get_content
  content-Takes [] none st ended = record {
    only = λ p h. inl h;
    stays = λ o h. h;
    each = λ m o member u r. elim member [ ];
  }
  content-Takes [] (some e) st ended = cc
  content-Takes (m ∷ ms) ending st ended =
      object-Takes m ms (get_content ix c ms ending) _ st refl (content-Takes ms ending) ended

-- A stream that fills an empty cache and is read to its end without an error leaves there what it
-- sent and a restore may take, and nothing else: each object of the cache was in a message and is
-- neither a node, a namespace, an event nor the service `kubernetes`, and for each message whose
-- object is none of these the cache has an object with its key.
pub get_content-taken :
    (ix : Indexer) (c : Cluster ix.Cache) (messages : List String) (ending : Option Error)
    → (get_content ix c messages ending ix.empty).1 ≡ none
    → ((p : Object → Bool)
        → any p (ix.list (get_content ix c messages ending ix.empty).0) ≡ true
        → IsSent ix c messages p)
      × ((m : String) (o : Object)
          → Member m messages
          → c.unmarshal m ≡ ok o
          → IsRestorable o
          → any (λ q. same_key q o) (ix.list (get_content ix c messages ending ix.empty).0) ≡ true)
unfolding any
get_content-taken ix c messages ending ended =
    let takes = content-Takes ix c messages ending ix.empty ended in
    (
      λ p h. elim (takes.only p h) [
        | inl h' ↦ let nothing = ap (any p) ix.list-empty in absurd (cc)
        | inr sent ↦ sent
      ],
      takes.each,
    )
