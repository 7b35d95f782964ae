-- ===== src/Base/Maps.antt =====
-- A Go map with text keys, as an association list. The order of its entries is not observed.
use Prim.Native.String.{String}
use mathlib.Core.Path.{◌≡◌, refl}
use mathlib.Core.Option.{Option, none, some}
use mathlib.Core.List.{List, [], ◌∷◌}
use native.Mathlib.Omega.{arith}
use text.Mathlib.Text.{◌==◌}
use text.Mathlib.TextEquality.{eq_iff}
use kahu.Base.Tests.{if◌then◌else◌}

abbrev pub Dict : Type 0 → Type 0
Dict V = List (String × V)

module _ {V : Type 0} where
  unfoldable pub at_key : Dict V → String → Option V
  at_key [] k = none
  at_key ((j, v) ∷ m) k = let rest = at_key m k in if j == k then some v else rest

  -- `m[k] = v`
  unfoldable pub put : Dict V → String → V → Dict V
  put [] k v = (k, v) ∷ []
  put ((j, w) ∷ m) k v = let rest = put m k v in if j == k then (j, v) ∷ m else (j, w) ∷ rest

  -- `delete(m, k)`
  unfoldable pub remove : Dict V → String → Dict V
  remove [] k = []
  remove ((j, w) ∷ m) k = let rest = remove m k in if j == k then rest else (j, w) ∷ rest

  pub at_key-put :
      (m : Dict V) (k j : String) (v : V)
      → at_key (put m k v) j ≡ (if k == j then some v else at_key m j)
  unfolding at_key put
  at_key-put [] k j v = refl
  at_key-put ((i, w) ∷ m) k j v =
      ground (arith, eq_iff i k, eq_iff i j, eq_iff k j, at_key-put m k j v)

  pub at_key-remove :
      (m : Dict V) (k j : String) → at_key (remove m k) j ≡ (if k == j then none else at_key m j)
  unfolding at_key remove
  at_key-remove [] k j = ground arith
  at_key-remove ((i, w) ∷ m) k j =
      ground (arith, eq_iff i k, eq_iff i j, eq_iff k j, at_key-remove m k j)
