-- ===== src/Utils/Metadata/Laws.antt =====
-- What the helpers for finalizers and annotations do to an object.
use kahu.Api.{ObjectMeta}
use kahu.Utils.Metadata.{
  find_finalizer, contains_finalizer, set_finalizer, without_finalizer, remove_finalizer,
  contains_annotation, get_annotation, set_annotation, remove_annotation,
}
use kahu.Base.{
  String, ◌≡◌, refl, inl, inr, false, not, ◌&&◌, ◌||◌, some, List, [], ◌∷◌, ◌++◌, arith, eq_iff,
  ◌==◌, if◌then◌else◌, Bool-cases, put, at_key-remove,
}

find_finalizer-append :
    (fs : List String) (f g : String)
    → find_finalizer (fs ++ f ∷ []) g ≡ (find_finalizer fs g || f == g)
unfolding find_finalizer
find_finalizer-append [] f g = ground arith
find_finalizer-append (x ∷ fs) f g = ground (arith, find_finalizer-append fs f g)

find_finalizer-without :
    (fs : List String) (f g : String)
    → find_finalizer (without_finalizer fs f) g ≡ (find_finalizer fs g && not (f == g))
unfolding find_finalizer without_finalizer
find_finalizer-without [] f g = refl
find_finalizer-without (x ∷ fs) f g =
    ground (arith, find_finalizer-without fs f g, eq_iff x f, eq_iff x g, eq_iff f g)

-- After `SetFinalizer` an object has that finalizer and those it had, each test unchanged but that
-- one; after `RemoveFinalizer` it has all it had but that one.
pub finalizers-set-remove :
    (meta : ObjectMeta) (f g : String)
    → (contains_finalizer (set_finalizer (some meta) f) g
        ≡ (contains_finalizer (some meta) g || f == g))
      × (contains_finalizer (remove_finalizer (some meta) f) g
          ≡ (contains_finalizer (some meta) g && not (f == g)))
unfolding contains_finalizer set_finalizer remove_finalizer
finalizers-set-remove meta f g = (
  ground (arith, find_finalizer-append meta.finalizers f g, eq_iff f g),
  find_finalizer-without meta.finalizers f g,
)

without_finalizer-append :
    (fs : List String) (f : String)
    → find_finalizer fs f ≡ false
    → without_finalizer (fs ++ f ∷ []) f ≡ fs
unfolding find_finalizer without_finalizer
without_finalizer-append [] f h = ground (arith, eq_iff f f)
without_finalizer-append (x ∷ fs) f h = ground (arith, without_finalizer-append fs f)

-- Removing a finalizer that was just set gives back the object, if it did not have it before.
pub remove_finalizer-set_finalizer :
    (meta : ObjectMeta) (f : String)
    → contains_finalizer (some meta) f ≡ false
    → remove_finalizer (set_finalizer (some meta) f) f ≡ some meta
unfolding contains_finalizer set_finalizer remove_finalizer
remove_finalizer-set_finalizer meta f h = ground (arith, without_finalizer-append meta.finalizers f)

-- `RemoveAnnotation` removes one key and leaves every other lookup as it was.
pub get_annotation-remove_annotation :
    (meta : ObjectMeta) (k j : String)
    → get_annotation (remove_annotation (some meta) k) j
      ≡ (if k == j then ("", false) else get_annotation (some meta) j)
unfolding get_annotation remove_annotation
get_annotation-remove_annotation meta k j = ground (arith, at_key-remove meta.annotations k j)

-- What `SetAnnotation` gives for an object is the object with other annotations.
pub set_annotation_finalizers :
    (meta : ObjectMeta) (annotation value : String)
    → (m : ObjectMeta) × (set_annotation (some meta) annotation value ≡ some m)
      × (m.finalizers ≡ meta.finalizers)
unfolding set_annotation
set_annotation_finalizers meta annotation value =
    elim (Bool-cases (contains_annotation (some meta) annotation)) [
      | inl t ↦ rw t (meta, refl, refl)
      | inr f ↦
          rw f (record meta { annotations = put meta.annotations annotation value }, refl, refl)
    ]
