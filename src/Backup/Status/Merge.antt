-- ===== src/Backup/Status/Merge.antt =====
-- What an update of the status can change.
use kahu.Base.Integer.{int_lt, int_lt_irrefl}
use kahu.Api.{BackupResource, BackupStatus, same_state, same_state_iff}
use kahu.Backup.Status.{
  first_time, sets_time, to_ordinal, draft_status, merge_resources, same_resource, draft_stage,
  draft_state, draft_errors, draft_times, draft_resources, has_stage, has_state,
}
use kahu.Base.{
  ℕ, ◌≡◌, refl, ap, ◌∙◌, inl, inr, Bool, true, false, not, ◌&&◌, ◌||◌, Option, none, some, List, [],
  ◌∷◌, ◌++◌, arith, eq_iff, ◌==◌, if◌then◌else◌, Bool-cases, keep, any, any-append, any-keep,
}

draft_status-stage_if :
    (old update : BackupStatus)
    → (draft_status old update).status.stage ≡ (
        if has_stage update.stage && int_lt (to_ordinal old.stage) (to_ordinal update.stage)
        then update.stage
        else old.stage)
unfolding draft_status
draft_status-stage_if old update = ground arith

sets_time-first_time : (o u : Option ℕ) → sets_time (first_time o u) u ≡ false
unfolding first_time sets_time
sets_time-first_time none none = refl
sets_time-first_time none (some t) = refl
sets_time-first_time (some _) _ = refl

first_time_kept : (o u : Option ℕ) → sets_time o u ≡ false → first_time o u ≡ o
unfolding first_time sets_time
first_time_kept none none h = refl
first_time_kept none (some t) h = cc
first_time_kept (some _) _ h = refl

-- The tests of an update that all fail.
record IsSettled (s update : BackupStatus) : Type 0 where
  stage_kept :
      (has_stage update.stage && int_lt (to_ordinal s.stage) (to_ordinal update.stage)) ≡ false
  state_kept : (has_state update.state && not (same_state s.state update.state)) ≡ false
  no_errors : update.validation_errors ≡ []
  no_resources : update.resource_list ≡ []
  start_kept : sets_time s.start_timestamp update.start_timestamp ≡ false
  completion_kept : sets_time s.completion_timestamp update.completion_timestamp ≡ false
  last_kept : sets_time s.last_backup update.last_backup ≡ false

draft_status_settled :
    (s update : BackupStatus)
    → IsSettled s update
    → draft_status s update ≡ record { status = s; dirty = false }
unfolding draft_stage draft_state draft_errors draft_times draft_resources draft_status
draft_status_settled s update h =
    rw (h.stage_kept, h.state_kept, h.no_errors, h.no_resources)
      (rw (
        h.start_kept,
        h.completion_kept,
        h.last_kept,
        first_time_kept _ _ h.start_kept,
        first_time_kept _ _ h.completion_kept,
        first_time_kept _ _ h.last_kept,
      ))

draft_status-state_if :
    (old update : BackupStatus)
    → (draft_status old update).status.state ≡ (
        if has_state update.state && not (same_state old.state update.state)
        then update.state
        else old.state)
unfolding draft_status
draft_status-state_if old update = ground arith

stage_settled :
    (old update : BackupStatus)
    → (has_stage update.stage
        && int_lt (to_ordinal (draft_status old update).status.stage) (to_ordinal update.stage))
      ≡ false
stage_settled old update =
    elim (Bool-cases
      (has_stage update.stage && int_lt (to_ordinal old.stage) (to_ordinal update.stage))) [
        | inl t ↦
            rw (draft_status-stage_if old update, t)
              (ground (arith, int_lt_irrefl (to_ordinal update.stage)))
        | inr f ↦ rw (draft_status-stage_if old update, f) f
      ]

state_settled :
    (old update : BackupStatus)
    → (has_state update.state
        && not (same_state (draft_status old update).status.state update.state))
      ≡ false
state_settled old update =
    elim (Bool-cases (has_state update.state && not (same_state old.state update.state))) [
      | inl t ↦
          rw (draft_status-state_if old update, t)
            (ground (arith, (same_state_iff update.state update.state).1 refl))
      | inr f ↦ rw (draft_status-state_if old update, f) f
    ]

draft_status-IsSettled :
    (old update : BackupStatus)
    → update.validation_errors ≡ []
    → update.resource_list ≡ []
    → IsSettled (draft_status old update).status update
draft_status-IsSettled old update e r = record {
  stage_kept = stage_settled old update;
  state_kept = state_settled old update;
  no_errors = e;
  no_resources = r;
  start_kept =
      unfold draft_status in
      ground (arith, sets_time-first_time old.start_timestamp update.start_timestamp);
  completion_kept =
      unfold draft_status in
      ground (arith, sets_time-first_time old.completion_timestamp update.completion_timestamp);
  last_kept =
      unfold draft_status in
      ground (arith, sets_time-first_time old.last_backup update.last_backup);
}

-- Repeating an update that brings no validation errors and no resources writes nothing.
pub draft_status_twice :
    (old update : BackupStatus)
    → update.validation_errors ≡ []
    → update.resource_list ≡ []
    → draft_status (draft_status old update).status update
      ≡ record { status = (draft_status old update).status; dirty = false }
draft_status_twice old update e r =
    draft_status_settled _ update (draft_status-IsSettled old update e r)

-- The test of `mergeStatusResources` for a resource: its namespace and name are listed.
abbrev is_listed : BackupResource → List BackupResource → Bool
is_listed r rs = any (λ b. b.namespace == r.namespace && b.resource_name == r.resource_name) rs

is_listed_same :
    (bs : List BackupResource) (x r : BackupResource)
    → same_resource x r ≡ true
    → is_listed x bs ≡ is_listed r bs
unfolding any same_resource
is_listed_same [] x r h = refl
is_listed_same (b ∷ bs) x r h = ground (
  arith,
  eq_iff x.namespace r.namespace,
  eq_iff x.resource_name r.resource_name,
  is_listed_same bs x r h,
)

is_listed_new :
    (old new : List BackupResource) (r : BackupResource)
    → is_listed r old ≡ false
    → any (λ x. not (is_listed x old) && same_resource x r) new ≡ is_listed r new
unfolding any same_resource
is_listed_new old [] r h = refl
is_listed_new old (x ∷ new) r h = elim (Bool-cases (same_resource x r)) [
  | inl t ↦ ground (arith, is_listed_new old new r h, is_listed_same old x r t)
  | inr f ↦ ground (arith, is_listed_new old new r h, f)
]

is_listed_kept :
    (old new : List BackupResource) (r : BackupResource)
    → (is_listed r old || is_listed r (keep (λ x. not (is_listed x old)) new))
      ≡ (is_listed r old || is_listed r new)
unfolding same_resource
is_listed_kept old new r = elim (Bool-cases (is_listed r old)) [
  | inl t ↦ rw t
  | inr f ↦
      rw (any-keep (λ b. same_resource b r) (λ x. not (is_listed x old)) new)
        (ap (λ b. is_listed r old || b) (is_listed_new old new r f))
]

-- After a merge exactly the resources that were listed and those that were brought are listed,
-- and the ones listed before stand first, in their order.
pub merge_resources_lem :
    (old new : List BackupResource) (r : BackupResource)
    → (is_listed r (merge_resources old new) ≡ (is_listed r old || is_listed r new))
      × (added : List BackupResource) × (merge_resources old new ≡ old ++ added)
unfolding merge_resources same_resource
merge_resources_lem old new r = (
  any-append (λ b. same_resource b r) old (keep (λ x. not (is_listed x old)) new)
      ∙ is_listed_kept old new r,
  keep (λ x. not (is_listed x old)) new,
  refl,
)
