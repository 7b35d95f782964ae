-- ===== src/Restore/Content/Kept.antt =====
-- Which parameters a backup's identifier has.
use kahu.Restore.Content.{merge_into, get_backup_identifier, BackupInfo}
use kahu.Base.{
  String, ◌≡◌, refl, ap, ◌∙◌, inl, inr, Bool, true, false, ◌&&◌, Option, none, some, [], ◌∷◌, arith,
  eq_iff, ◌==◌, Bool-cases, Dict, at_key, put, at_key-put,
}

abbrev pub or_else : Option String → Option String → Option String
or_else none other = other
or_else (some value) other = some value

abbrev is_absent : Option String → Bool
is_absent none = true
is_absent (some value) = false

-- A map has each of its keys once.
abbrev pub distinct_keys : Dict String → Bool
distinct_keys [] = true
distinct_keys ((key, value) ∷ rest) = is_absent (at_key rest key) && distinct_keys rest

absent : (o : Option String) → is_absent o ≡ true → o ≡ none
absent none h = refl
absent (some value) h = cc

at_key-merge_into :
    (d m : Dict String) (key : String)
    → distinct_keys d ≡ true
    → at_key (merge_into m d) key ≡ or_else (at_key d key) (at_key m key)
unfolding merge_into at_key
at_key-merge_into [] m key h = refl
at_key-merge_into ((j, value) ∷ rest) m key h = elim (Bool-cases (j == key)) [
  | inl t ↦
      let gone = absent (at_key rest j) (ground arith) in
      let same = (eq_iff j key).0 t in
      at_key-merge_into rest (put m j value) key (ground arith)
      ∙ rw (at_key-put m j key value) (rw t (rw (← same) (rw gone refl)))
  | inr f ↦
      at_key-merge_into rest (put m j value) key (ground arith)
      ∙ rw (at_key-put m j key value) (rw f refl)
]

or_else-none : (o : Option String) → or_else o none ≡ o
or_else-none none = refl
or_else-none (some value) = refl

-- The parameters of a backup's identifier are those of its location, and for the keys that these
-- lack those of the provider, where each map has its keys once.
pub get_backup_identifier-parameters :
    (info : BackupInfo) (key : String)
    → distinct_keys info.backup_location.config ≡ true
    → distinct_keys info.backup_provider.manifest ≡ true
    → at_key (get_backup_identifier info).parameters key
      ≡ or_else (at_key info.backup_location.config key) (at_key info.backup_provider.manifest key)
unfolding get_backup_identifier at_key
get_backup_identifier-parameters info key h h' =
    at_key-merge_into info.backup_location.config _ key h
    ∙ ap (or_else (at_key info.backup_location.config key)) (
        at_key-merge_into info.backup_provider.manifest [] key h'
        ∙ or_else-none (at_key info.backup_provider.manifest key))
