-- ===== src/Base/Names.antt =====
-- Names as apimachinery's `sets.String` lists them, and Go's `strings.Join`.
use Prim.Native.Nat.{Ordering}
use Prim.Native.String.{String, compare, ◌++◌ as append}
use mathlib.Core.Path.{◌≡◌, refl}
use mathlib.Core.Bool.{false}
use mathlib.Core.List.{List, [], ◌∷◌}
use kahu.Base.Lists.{is_empty}

-- Into a list that rises, each name once. Texts are compared by their code points, which is the
-- order of their bytes.
placed : String → String → Ordering → List String → List String → List String
placed name first Ordering.lt rest with_name = name ∷ first ∷ rest
placed name first Ordering.eq rest with_name = first ∷ rest
placed name first Ordering.gt rest with_name = first ∷ with_name

insert_name : String → List String → List String
insert_name name [] = name ∷ []
insert_name name (first ∷ rest) =
    placed name first (compare name first) rest (insert_name name rest)

-- `sets.NewString(names...).List()`: sorted, and each name once.
pub sorted_set : List String → List String
sorted_set [] = []
sorted_set (name ∷ names) = insert_name name (sorted_set names)

-- `strings.Join(names, ",")`
pub join : List String → String
join [] = ""
join (s ∷ []) = s
join (s ∷ t ∷ ss) = let rest = join (t ∷ ss) in append s (append "," rest)

is_empty-placed :
    (name first : String) (o : Ordering) (rest with_name : List String)
    → is_empty (placed name first o rest with_name) ≡ false
unfolding placed
is_empty-placed name first Ordering.lt rest with_name = refl
is_empty-placed name first Ordering.eq rest with_name = refl
is_empty-placed name first Ordering.gt rest with_name = refl

is_empty-insert_name :
    (name : String) (names : List String) → is_empty (insert_name name names) ≡ false
unfolding insert_name
is_empty-insert_name name [] = refl
is_empty-insert_name name (first ∷ rest) = is_empty-placed name first _ rest _

pub is_empty-sorted_set : (names : List String) → is_empty (sorted_set names) ≡ is_empty names
unfolding sorted_set
is_empty-sorted_set [] = refl
is_empty-sorted_set (name ∷ names) = is_empty-insert_name name (sorted_set names)

sorted_names : sorted_set ("shop" ∷ "bank" ∷ "shop" ∷ []) ≡ "bank" ∷ "shop" ∷ []
unfolding sorted_set insert_name placed
sorted_names = refl
