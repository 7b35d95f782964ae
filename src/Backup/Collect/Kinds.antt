-- ===== src/Backup/Collect/Kinds.antt =====
-- Which kinds of objects a backup takes.
use kahu.Api.{Backup, ObjectMeta, ResourceSpec}
use kahu.Utils.Metadata.{contains_annotation, get_annotation}
use kahu.Backup.Objects.{ApiResource}
use kahu.Backup.Collect.{
  exclude_resource_type, ann_resource_selector, annotated_resources, filter_by_annotation,
  filter_by_include, excluded_kinds, filter_by_exclude, filter_by_backup, filter_resources,
}
use kahu.Base.{
  String, ◌≡◌, refl, sym, ap, ◌∙◌, inl, inr, Bool, true, not, ◌&&◌, ◌||◌, Option, none, some, List,
  [], ◌∷◌, map, arith, ◌==◌, if◌then◌else◌, Option-cases, is_empty, keep, any, any-keep, contains,
  at_key, keep-agree, contains-map, keep-keep, keep-all,
}

-- The kinds that an annotation lists, all without it.
is_supported : (String → List String) → Option String → String → Bool
is_supported split none kind = true
is_supported split (some kinds) kind = contains (split kinds) kind

-- Whether a specification leaves the whole kind out.
pub leaves_out : String → ResourceSpec → Bool
leaves_out kind spec = (spec.name == "" || spec.name == "*") && spec.kind == kind

-- The kinds that a backup takes: none that is never backed up, those that its annotation lists if it
-- has one, those that it includes if it includes any, and none that it leaves out whole.
pub is_wanted : (String → List String) → Backup → String → Bool
is_wanted split backup kind =
    not (contains exclude_resource_type kind)
    && is_supported split (at_key backup.object_meta.annotations ann_resource_selector) kind
    && (is_empty backup.spec.include_resources
        || any (λ spec. spec.kind == kind) backup.spec.include_resources)
    && not (any (leaves_out kind) backup.spec.exclude_resources)

and_regroup : (a b c d : Bool) → (a && (b && (c && d))) ≡ (a && b && c && d)
and_regroup a b c d = ground arith

by_annotation :
    (split : String → List String) (meta : ObjectMeta) (rs : List ApiResource)
    → filter_by_annotation split meta rs
      ≡ keep (λ r. is_supported split (at_key meta.annotations ann_resource_selector) r.kind) rs
unfolding filter_by_annotation contains_annotation get_annotation annotated_resources is_supported
by_annotation split meta rs = elim (Option-cases (at_key meta.annotations ann_resource_selector)) [
  | inl none_ ↦ rw none_ (sym (keep-all (λ r. true) rs (λ r. refl)))
  | inr (kinds, e) ↦ rw e refl
]

by_include :
    (specs : List ResourceSpec) (rs : List ApiResource)
    → filter_by_include specs rs
      ≡ keep (λ r. is_empty specs || any (λ spec. spec.kind == r.kind) specs) rs
unfolding filter_by_include any
by_include [] rs = sym (keep-all (λ r. true) rs (λ r. refl))
by_include (spec ∷ specs) rs =
    keep-agree _ _ rs (λ r m. contains-map (λ s. s.kind) (spec ∷ specs) r.kind)

drop_kinds :
    (kinds : List String) (rs : List ApiResource)
    → (if is_empty kinds then rs else keep (λ r. not (contains kinds r.kind)) rs)
      ≡ keep (λ r. not (contains kinds r.kind)) rs
unfolding contains
drop_kinds [] rs = sym (keep-all (λ r. true) rs (λ r. refl))
drop_kinds (kind ∷ kinds) rs = refl

by_exclude :
    (specs : List ResourceSpec) (rs : List ApiResource)
    → filter_by_exclude specs rs ≡ keep (λ r. not (any (leaves_out r.kind) specs)) rs
unfolding filter_by_exclude excluded_kinds leaves_out
by_exclude specs rs =
    let left = keep (λ spec. spec.name == "" || spec.name == "*") specs in
    drop_kinds (map (λ spec. spec.kind) left) rs
    ∙ keep-agree _ _ rs (λ r m. ap not (
        contains-map (λ spec. spec.kind) left r.kind
        ∙ any-keep (λ spec. spec.kind == r.kind) (λ spec. spec.name == "" || spec.name == "*")
            specs))

-- The filters of the API's resources, one after the other, keep exactly those of the kinds that the
-- backup takes, in their order.
pub filter_resources-wanted :
    (split : String → List String) (backup : Backup) (rs : List ApiResource)
    → filter_resources split backup rs ≡ keep (λ r. is_wanted split backup r.kind) rs
unfolding filter_resources filter_by_backup is_wanted
filter_resources-wanted split backup rs =
    let spec = backup.spec in
    let taken : List ApiResource = keep (λ r. not (contains exclude_resource_type r.kind)) rs in
    by_exclude spec.exclude_resources _
    ∙ ap (keep (λ r. not (any (leaves_out r.kind) spec.exclude_resources))) (
        by_include spec.include_resources _
        ∙ ap
            (keep (λ r.
              is_empty spec.include_resources
              || any (λ spec. spec.kind == r.kind) spec.include_resources))
            (by_annotation split backup.object_meta taken))
    ∙ keep-keep _ _ _
    ∙ keep-keep _ _ _
    ∙ keep-keep _ _ rs
    ∙ keep-agree _ _ rs (λ r m.
      and_regroup (not (contains exclude_resource_type r.kind))
        (is_supported split (at_key backup.object_meta.annotations ann_resource_selector) r.kind)
        (is_empty spec.include_resources
          || any (λ spec. spec.kind == r.kind) spec.include_resources)
        (not (any (leaves_out r.kind) spec.exclude_resources)))
