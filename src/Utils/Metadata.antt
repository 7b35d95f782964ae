-- ===== src/Utils/Metadata.antt =====
-- utils/finalizers.go and utils/annotations.go: the metadata of a Kubernetes object.
-- A nil object is `none`.
pub mod Laws
mod Examples
use kahu.Api.{ObjectMeta}
use kahu.Base.{
  String, Bool, true, false, not, Option, none, some, List, [], ◌∷◌, ◌++◌, ◌==◌, if◌then◌else◌,
  at_key, put, remove,
}

find_finalizer : List String → String → Bool
find_finalizer [] finalizer = false
find_finalizer (f ∷ fs) finalizer =
    let rest = find_finalizer fs finalizer in if f == finalizer then true else rest

pub contains_finalizer : Option ObjectMeta → String → Bool
unfolding find_finalizer
contains_finalizer none finalizer = false
contains_finalizer (some meta) finalizer = find_finalizer meta.finalizers finalizer

pub set_finalizer : Option ObjectMeta → String → Option ObjectMeta
unfolding contains_finalizer
set_finalizer none finalizer = none
set_finalizer (some meta) finalizer =
    if not (contains_finalizer (some meta) finalizer)
    then some (record meta { finalizers = meta.finalizers ++ finalizer ∷ [] })
    else some meta

-- The loop that copies all other finalizers.
without_finalizer : List String → String → List String
without_finalizer [] finalizer = []
without_finalizer (f ∷ fs) finalizer =
    let rest = without_finalizer fs finalizer in if not (f == finalizer) then f ∷ rest else rest

unfoldable pub remove_finalizer : Option ObjectMeta → String → Option ObjectMeta
unfolding without_finalizer
remove_finalizer none finalizer = none
remove_finalizer (some meta) finalizer =
    some (record meta { finalizers = without_finalizer meta.finalizers finalizer })

is_some : {A : Type 0} → Option A → Bool
is_some none = false
is_some (some _) = true

-- The loop over the map finds the key if the map has it.
unfoldable pub contains_annotation : Option ObjectMeta → String → Bool
unfolding is_some
contains_annotation none annotation = false
contains_annotation (some meta) annotation = is_some (at_key meta.annotations annotation)

found_annotation : Option String → String × Bool
found_annotation none = ("", false)
found_annotation (some value) = (value, true)

unfoldable pub get_annotation : Option ObjectMeta → String → String × Bool
unfolding found_annotation
get_annotation none annotation = ("", false)
get_annotation (some meta) annotation = found_annotation (at_key meta.annotations annotation)

-- An annotation that is there keeps its value.
pub set_annotation : Option ObjectMeta → String → String → Option ObjectMeta
unfolding contains_annotation
set_annotation none annotation value = none
set_annotation (some meta) annotation value =
    if not (contains_annotation (some meta) annotation)
    then some (record meta { annotations = put meta.annotations annotation value })
    else some meta

pub remove_annotation : Option ObjectMeta → String → Option ObjectMeta
remove_annotation none annotation = none
remove_annotation (some meta) annotation =
    some (record meta { annotations = remove meta.annotations annotation })
