-- ===== src/VolumeService/Progress/Synced.antt =====
-- What a poll makes of the progress of each volume.
use mathlib.Core.Path.{subst}
use kahu.Base.Integer.{ℤ, int_lt, int_lt_irrefl, int_lt_asymm, int_lt_trans}
use kahu.VolumeService.Cluster.{VolumeBackupContent, VolumeBackupState, BackupStat}
use kahu.VolumeService.Progress.{raise_progress, apply_stats, with_stats, is_stale}
use kahu.VolumeService.Updaters.{with_status}
use kahu.Base.{
  ℕ, ◌≡◌, refl, sym, ◌∙◌, ◌⊎◌, inl, inr, true, false, List, [], ◌∷◌, map, eq_iff, ◌==◌, Bool-cases,
  all, Member, here, there, Member-cons,
}

-- Two lists of one length, related element by element.
pub data Each {A : Type 0} (R : A → A → Type 0) : List A → List A → Type 0 where
  each_none : Each R [] []
  each_next : {x y : A} {xs ys : List A} → R x y → Each R xs ys → Each R (x ∷ xs) (y ∷ ys)

-- A state that took on what a stat says, at a time.
abbrev taken : ℕ → BackupStat → VolumeBackupState → VolumeBackupState
taken now stat state = record state { last_progress_update = now; progress = stat.progress }

-- A state is as it was, or one of the stats with its handle raised it.
abbrev IsRaised : ℕ → List BackupStat → VolumeBackupState → VolumeBackupState → Type 0
IsRaised now stats old new =
    (new ≡ old)
    ⊎ ((stat : BackupStat) × Member stat stats
        × (old.backup_handle ≡ stat.backup_handle)
        × (int_lt old.progress stat.progress ≡ true)
        × (new ≡ taken now stat old))

-- No stat with the handle is above the state.
abbrev IsHighest : List BackupStat → VolumeBackupState → Type 0
IsHighest stats new =
    (stat : BackupStat)
    → Member stat stats
    → new.backup_handle ≡ stat.backup_handle
    → int_lt new.progress stat.progress ≡ false

abbrev pub IsSynced : ℕ → List BackupStat → VolumeBackupState → VolumeBackupState → Type 0
IsSynced now stats old new = IsRaised now stats old new × IsHighest stats new

-- One state through all stats.
raise_all : ℕ → List BackupStat → VolumeBackupState → VolumeBackupState
raise_all now [] state = state
raise_all now (stat ∷ stats) state = raise_all now stats (raise_progress now stat state)

map-map : {A : Type 0} (f g : A → A) (xs : List A) → map f (map g xs) ≡ map (λ x. f (g x)) xs
map-map f g [] = refl
map-map f g (x ∷ xs) = let ih = map-map f g xs in cc

map-id : {A : Type 0} (xs : List A) → map (λ x. x) xs ≡ xs
map-id [] = refl
map-id (x ∷ xs) = let ih = map-id xs in cc

apply_stats-map :
    (now : ℕ) (stats : List BackupStat) (states : List VolumeBackupState)
    → apply_stats now stats states ≡ map (raise_all now stats) states
unfolding apply_stats raise_all
apply_stats-map now [] states = sym (map-id states)
apply_stats-map now (stat ∷ stats) states =
    apply_stats-map now stats (map (raise_progress now stat) states)
    ∙ map-map (raise_all now stats) (raise_progress now stat) states

raise_progress-cases :
    (now : ℕ) (stat : BackupStat) (s : VolumeBackupState)
    → ((raise_progress now stat s ≡ s)
        × (s.backup_handle ≡ stat.backup_handle → int_lt s.progress stat.progress ≡ false))
      ⊎ ((raise_progress now stat s ≡ taken now stat s)
          × (s.backup_handle ≡ stat.backup_handle)
          × (int_lt s.progress stat.progress ≡ true))
unfolding raise_progress
raise_progress-cases now stat s = elim (Bool-cases (s.backup_handle == stat.backup_handle)) [
  | inl same ↦ elim (Bool-cases (int_lt s.progress stat.progress)) [
    | inl above ↦ inr (simp (same, above) refl, (eq_iff _ _).0 same, above)
    | inr below ↦ inl (simp (same, below) refl, λ e. below)
  ]
  | inr other ↦
      inl (simp (other) refl, λ e. let h = (eq_iff s.backup_handle stat.backup_handle).1 e in cc)
]

not_above : (a b d : ℤ) → int_lt a b ≡ true → int_lt a d ≡ false → int_lt b d ≡ false
not_above a b d h k = elim (Bool-cases (int_lt b d)) [
  | inl t ↦ let l = int_lt_trans a b d h t in cc
  | inr f ↦ f
]

module _ (now : ℕ) (stat : BackupStat) (stats : List BackupStat) (s : VolumeBackupState) where
  highest_kept :
      (r : VolumeBackupState)
      → (s.backup_handle ≡ stat.backup_handle → int_lt s.progress stat.progress ≡ false)
      → IsRaised now stats s r
      → r.backup_handle ≡ stat.backup_handle
      → int_lt r.progress stat.progress ≡ false
  highest_kept r low (inl e) h = rw e (low (rw e at h))
  highest_kept r low (inr (st, m, same, above, e)) h =
      rw e (not_above s.progress st.progress stat.progress above (low (rw e at h)))

  kept_step :
      (r : VolumeBackupState)
      → (s.backup_handle ≡ stat.backup_handle → int_lt s.progress stat.progress ≡ false)
      → IsSynced now stats s r
      → IsSynced now (stat ∷ stats) s r
  kept_step r low (raised_by, highest) = (
    elim raised_by [
      | inl e ↦ inl e
      | inr (st, m, same, above, e) ↦ inr (st, there m, same, above, e)
    ],
    Member-cons (λ st. r.backup_handle ≡ st.backup_handle → int_lt r.progress st.progress ≡ false)
        (highest_kept r low raised_by) highest,
  )

  highest_raised :
      (r : VolumeBackupState)
      → IsRaised now stats (taken now stat s) r
      → int_lt r.progress stat.progress ≡ false
  highest_raised r (inl e) = rw e (int_lt_irrefl stat.progress)
  highest_raised r (inr (st, m, same, above, e)) =
      rw e (int_lt_asymm stat.progress st.progress above)

  raised_step :
      (r : VolumeBackupState)
      → s.backup_handle ≡ stat.backup_handle
      → int_lt s.progress stat.progress ≡ true
      → IsSynced now stats (taken now stat s) r
      → IsSynced now (stat ∷ stats) s r
  raised_step r same above (raised_by, highest) = (
    elim raised_by [
      | inl e ↦ inr (stat, here, same, above, e)
      | inr (st, m, same', above', e) ↦
          inr
            (st, there m, same', int_lt_trans s.progress stat.progress st.progress above above', e)
    ],
    Member-cons (λ st. r.backup_handle ≡ st.backup_handle → int_lt r.progress st.progress ≡ false)
        (λ h. highest_raised r raised_by) highest,
  )

raise_all-IsSynced :
    (now : ℕ) (stats : List BackupStat) (s : VolumeBackupState)
    → IsSynced now stats s (raise_all now stats s)
unfolding raise_all
raise_all-IsSynced now [] s = (inl refl, λ stat m. elim m [ ])
raise_all-IsSynced now (stat ∷ stats) s =
    let r = raise_all now stats (raise_progress now stat s) in
    let ih = raise_all-IsSynced now stats (raise_progress now stat s) in
    elim (raise_progress-cases now stat s) [
      | inl (e, low) ↦ kept_step now stat stats s r low (subst (λ x. IsSynced now stats x r) e ih)
      | inr (e, same, above) ↦
          raised_step now stat stats s r same above (subst (λ x. IsSynced now stats x r) e ih)
    ]

map-Each :
    {A : Type 0} (R : A → A → Type 0) (f : A → A) (xs : List A)
    → ((x : A) → R x (f x))
    → Each R xs (map f xs)
map-Each R f [] h = each_none
map-Each R f (x ∷ xs) h = each_next (h x) (map-Each R f xs h)

with_stats-states :
    (now : ℕ) (stats : List BackupStat) (content : VolumeBackupContent)
    → (with_stats now stats content).status.backup_states
      ≡ apply_stats now stats content.status.backup_states
unfolding with_stats with_status
with_stats-states now stats content =
    elim (Bool-cases (all (is_stale now) (apply_stats now stats content.status.backup_states))) [
      | inl t ↦ simp t refl
      | inr f ↦ simp f refl
    ]

-- After the driver's stats each volume of a content has the highest of the progress that it had and
-- of those that the stats give for its handle: a state is as it was, or one stat with its handle and
-- a higher progress gave it its progress, and the time of the poll, and nothing else; and no stat
-- with its handle is above it.
pub with_stats-Each :
    (now : ℕ) (stats : List BackupStat) (content : VolumeBackupContent)
    → Each
        (IsSynced now stats)
        content.status.backup_states
        (with_stats now stats content).status.backup_states
with_stats-Each now stats content =
    let states = content.status.backup_states in
    rw (with_stats-states now stats content) (
      rw (apply_stats-map now stats states)
        (map-Each (IsSynced now stats) (raise_all now stats) states (raise_all-IsSynced now stats)))
