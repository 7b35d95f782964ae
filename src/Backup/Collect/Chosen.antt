-- ===== src/Backup/Collect/Chosen.antt =====
-- The namespaces that a backup takes.
use kahu.Api.{BackupSpec}
use kahu.Unstructured.{Object}
use kahu.Backup.Collect.{is_namespace_chosen, choose_namespaces}
use kahu.Base.{
  String, ◌≡◌, inl, inr, true, false, ◌||◌, List, [], ◌∷◌, arith, ◌==◌, Bool-cases, is_empty,
  contains, Dict, put, Member, here, there, Member-cons,
}

-- A namespace that the backup does not exclude, and that it includes if it includes any.
pub record IsChosen (spec : BackupSpec) (name : String) : Type 0 where
  pub not_excluded : contains spec.exclude_namespaces name ≡ false
  pub included : (is_empty spec.include_namespaces || contains spec.include_namespaces name) ≡ true

choose_namespaces-IsChosen :
    (spec : BackupSpec) (name : String) → is_namespace_chosen spec name ≡ true → IsChosen spec name
unfolding is_namespace_chosen
choose_namespaces-IsChosen spec name h = record {
  not_excluded = ground arith;
  included = ground arith;
}

abbrev pub AllValues : (Object → Type 0) → Dict Object → Type 0
AllValues P m = (entry : String × Object) → Member entry m → P entry.1

put-AllValues :
    (P : Object → Type 0) (m : Dict Object) (name : String) (o : Object)
    → P o
    → AllValues P m
    → AllValues P (put m name o)
unfolding put
put-AllValues P [] name o p h = Member-cons (λ entry. P entry.1) p h
put-AllValues P ((name', o') ∷ m) name o p h = elim (Bool-cases (name' == name)) [
  | inl t ↦ rw t (Member-cons (λ entry. P entry.1) p (λ entry m'. h entry (there m')))
  | inr f ↦ rw f (
      Member-cons (λ entry. P entry.1) (h (name', o') here)
        (put-AllValues P m name o p (λ entry m'. h entry (there m'))))
]

pub choose-AllValues :
    (spec : BackupSpec) (nss : List Object) (m : Dict Object)
    → AllValues (λ ns. IsChosen spec ns.name) m
    → AllValues (λ ns. IsChosen spec ns.name) (choose_namespaces spec nss m)
unfolding choose_namespaces
choose-AllValues spec [] m h = h
choose-AllValues spec (ns ∷ nss) m h = elim (Bool-cases (is_namespace_chosen spec ns.name)) [
  | inl t ↦ rw t (
      choose-AllValues spec nss (put m ns.name ns) (
        put-AllValues (λ ns. IsChosen spec ns.name) m ns.name ns
          (choose_namespaces-IsChosen spec ns.name t) h))
  | inr f ↦ rw f (choose-AllValues spec nss m h)
]
