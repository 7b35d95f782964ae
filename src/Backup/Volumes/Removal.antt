-- ===== src/Backup/Volumes/Removal.antt =====
-- What `removeVolumeBackup` does to the volume contents of a backup.
use kahu.Api.{Backup}
use kahu.Backup.Cluster.{
  Cluster, Machine, Action, Work, ContentRef, deleted_content, deleted_metadata,
}
use kahu.Backup.Volumes.{
  remove_volume_backup, delete_contents, delete_one, delete_rest, delete_listed,
}
use kahu.Base.{
  String, ◌≡◌, refl, inl, inr, Option, none, some, List, [], ◌∷◌, if◌then◌else◌, Bool-cases, Error,
  Result, ok, err,
}

pub data IsDeletion : Work → Type 0 where
  of_content : (name : String) → IsDeletion (deleted_content name)
  of_metadata : (name : String) → IsDeletion (deleted_metadata name)

-- A history that only deletions were added to.
pub data OnlyDeletes (old : List Work) : List Work → Type 0 where
  same : OnlyDeletes old old
  more : {w : Work} {h : List Work} → OnlyDeletes old h → IsDeletion w → OnlyDeletes old (w ∷ h)

pub OnlyDeletes-trans : {a b c : List Work} → OnlyDeletes a b → OnlyDeletes b c → OnlyDeletes a c
OnlyDeletes-trans p same = p
OnlyDeletes-trans p (more q d) = more (OnlyDeletes-trans p q) d

-- The deletions of the contents that are not being deleted, put on a history in their order.
abbrev pub with_deletions : List Work → List ContentRef → List Work
with_deletions h [] = h
with_deletions h (v ∷ vs) = with_deletions (if v.deleting then h else deleted_content v.name ∷ h) vs

module _ (c : Cluster) where
  open c use {World, list_contents}

  delete_rest-OnlyDeletes :
      (rest : Action World (Option Error)) (old : List Work)
      → ((s : Machine World) → OnlyDeletes s.history (rest s).1.history)
      → (e : Option Error) (s : Machine World) → OnlyDeletes old s.history
      → OnlyDeletes old (delete_rest c rest e s).1.history
  unfolding delete_rest
  delete_rest-OnlyDeletes rest old h none s p = OnlyDeletes-trans p (h s)
  delete_rest-OnlyDeletes rest old h (some e) s p = p

  delete_contents-OnlyDeletes :
      (vs : List ContentRef) (s : Machine World)
      → OnlyDeletes s.history (delete_contents c vs s).1.history
  unfolding delete_contents delete_one
  delete_contents-OnlyDeletes [] s = same
  delete_contents-OnlyDeletes (v ∷ vs) s = elim (Bool-cases v.deleting) [
    | inl t ↦ rw t (delete_contents-OnlyDeletes vs s)
    | inr f ↦ rw f (
        delete_rest-OnlyDeletes (delete_contents c vs) s.history (delete_contents-OnlyDeletes vs) _
          _ (more same (of_content v.name)))
  ]

  delete_listed-OnlyDeletes :
      (r : Result (List ContentRef)) (s : Machine World)
      → OnlyDeletes s.history (delete_listed c r s).1.history
  unfolding delete_listed
  delete_listed-OnlyDeletes (err e) s = same
  delete_listed-OnlyDeletes (ok vs) s = delete_contents-OnlyDeletes vs s

  pub remove_volume_backup-OnlyDeletes :
      (backup : Backup) (s : Machine World)
      → OnlyDeletes s.history (remove_volume_backup c backup s).1.history
  unfolding remove_volume_backup
  remove_volume_backup-OnlyDeletes backup s = delete_listed-OnlyDeletes _ _

  delete_rest-history :
      (rest : Action World (Option Error)) (vs : List ContentRef)
      → ((s : Machine World) → (rest s).0 ≡ none → (rest s).1.history ≡ with_deletions s.history vs)
      → (e : Option Error) (s : Machine World) → (delete_rest c rest e s).0 ≡ none
      → (delete_rest c rest e s).1.history ≡ with_deletions s.history vs
  unfolding delete_rest
  delete_rest-history rest vs h none s p = h s p
  delete_rest-history rest vs h (some e) s p = cc

  delete_contents-history :
      (vs : List ContentRef) (s : Machine World)
      → (delete_contents c vs s).0 ≡ none
      → (delete_contents c vs s).1.history ≡ with_deletions s.history vs
  unfolding delete_contents delete_one
  delete_contents-history [] s h = refl
  delete_contents-history (v ∷ vs) s h = elim (Bool-cases v.deleting) [
    | inl t ↦ rw t (delete_contents-history vs s (rw t at h))
    | inr f ↦
        rw f (
          delete_rest-history (delete_contents c vs) vs (delete_contents-history vs) _ _
            (rw f at h))
  ]

  delete_listed-history :
      (r : Result (List ContentRef)) (s : Machine World)
      → (delete_listed c r s).0 ≡ none
      → (vs : List ContentRef) × (r ≡ ok vs)
        × ((delete_listed c r s).1.history ≡ with_deletions s.history vs)
  unfolding delete_listed
  delete_listed-history (err e) s h = cc
  delete_listed-history (ok vs) s h = (vs, refl, delete_contents-history vs s h)

-- Where `removeVolumeBackup` returns no error, it has asked for the deletion of every content that
-- the API lists for the backup and that is not being deleted, once each, in the list's order, and
-- has done nothing else.
pub remove_volume_backup-history :
    (c : Cluster) (backup : Backup) (s : Machine c.World)
    → (remove_volume_backup c backup s).0 ≡ none
    → (vs : List ContentRef) × ((c.list_contents backup.name s.world).0 ≡ ok vs)
      × ((remove_volume_backup c backup s).1.history ≡ with_deletions s.history vs)
unfolding remove_volume_backup
remove_volume_backup-history c backup s h = delete_listed-history c _ _ h
