-- ===== src/VolumeService/Delete/Owners.antt =====
-- Which owners let a content be deleted.
use kahu.Backup.Cluster.{Lookup, found, not_found, lookup_error}
use kahu.VolumeService.Cluster.{Cluster, Machine, Action, OwnerReference, OwnerBackup}
use kahu.VolumeService.Delete.{
  is_valid_delete, is_valid_delete_with_backup, owner_found, and_owners,
}
use kahu.Base.{
  ◌≡◌, refl, ◌≢◌, inl, inr, Bool, true, false, List, [], ◌∷◌, arith, eq_iff, ◌==◌, Bool-cases,
  Error, Result, ok, err, Member, Member-cons,
}

-- The backup that owns a content does not exist, or is another one of its name, or is being deleted.
pub data MayGo (c : Cluster) (owner : OwnerReference) (w : c.World) : Type 0 where
  has_gone : (e : Error) → c.get_owner owner.name w ≡ not_found e → MayGo c owner w
  is_other :
      (b : OwnerBackup) → c.get_owner owner.name w ≡ found b → b.uid ≢ owner.uid → MayGo c owner w
  is_going :
      (b : OwnerBackup) → c.get_owner owner.name w ≡ found b → b.deleted ≡ true → MayGo c owner w

-- Each owner that is a backup lets its content go.
abbrev pub OwnersMayGo : (c : Cluster) → List OwnerReference → c.World → Type 0
OwnersMayGo c owners w =
    (owner : OwnerReference) → Member owner owners → owner.kind ≡ "Backup" → MayGo c owner w

module _ (c : Cluster) where
  owner_found-MayGo :
      (owner : OwnerReference) (l : Lookup OwnerBackup) (s : Machine c.World)
      → c.get_owner owner.name s.world ≡ l
      → (owner_found c owner l s).0 ≡ ok true
      → MayGo c owner s.world × ((owner_found c owner l s).1 ≡ s)
  unfolding owner_found
  owner_found-MayGo owner (lookup_error e) s listed h = absurd (cc)
  owner_found-MayGo owner (not_found e) s listed h = (has_gone e listed, refl)
  owner_found-MayGo owner (found b) s listed h = elim (Bool-cases (b.uid == owner.uid)) [
    | inr f ↦ (
      is_other b listed (λ e. absurd (ground (arith, f, (eq_iff b.uid owner.uid).1 e))),
      simp f refl,
    )
    | inl t ↦ elim (Bool-cases b.deleted) [
      | inl d ↦ (is_going b listed d, simp (t, d) refl)
      | inr d ↦ let h' = rw t at h in let h'' = rw d at h' in absurd (cc)
    ]
  ]

  and_owners_valid :
      (rest : Action c.World (Result Bool)) (r : Result Bool) (s : Machine c.World)
      → (and_owners c rest r s).0 ≡ ok true
      → (r ≡ ok true) × ((rest s).0 ≡ ok true)
  unfolding and_owners
  and_owners_valid rest (err e) s h = absurd (cc)
  and_owners_valid rest (ok false) s h = absurd (cc)
  and_owners_valid rest (ok true) s h = (refl, h)

  pub is_valid_delete-OwnersMayGo :
      (owners : List OwnerReference) (s : Machine c.World)
      → (is_valid_delete c owners s).0 ≡ ok true
      → OwnersMayGo c owners s.world
  unfolding is_valid_delete is_valid_delete_with_backup
  is_valid_delete-OwnersMayGo [] s h owner member backup = elim member [ ]
  is_valid_delete-OwnersMayGo (o ∷ os) s h owner member backup =
      elim (Bool-cases (o.kind == "Backup")) [
        | inl t ↦
            let (valid, later) =
              and_owners_valid (is_valid_delete c os)
                (owner_found c o (c.get_owner o.name s.world) s).0 _ (rw t at h) in
            let (gone, unchanged) = owner_found-MayGo o _ s refl valid in
            Member-cons (λ x. x.kind ≡ "Backup" → MayGo c x s.world) (λ k. gone)
              (λ x m. is_valid_delete-OwnersMayGo os s (rw unchanged at later) x m) owner member
              backup
        | inr f ↦
            Member-cons (λ x. x.kind ≡ "Backup" → MayGo c x s.world)
              (λ k. absurd (ground (arith, f, (eq_iff o.kind "Backup").1 k)))
              (λ x m. is_valid_delete-OwnersMayGo os s (rw f at h) x m) owner member backup
      ]
