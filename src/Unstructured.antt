-- ===== src/Unstructured.antt =====
-- apimachinery's `unstructured.Unstructured`, the objects of the caches of backups and restores, with
-- the fields that the modelled code reads.
use kahu.Base.{String, Bool, true, false, Dict, ◌==◌}

-- How the object stands behind its `interface{}`: as `*unstructured.Unstructured`, as
-- `unstructured.Unstructured`, or as another type.
pub data Form : Type 0 where
  pointer value other_type : Form

-- `owned` says that the list of owner references is not nil.
pub record Object : Type 0 where
  pub form : Form
  pub uid : String
  pub api_version : String
  pub kind : String
  pub namespace : String
  pub name : String
  pub labels : Dict String
  pub owned : Bool

-- `uidKeyFunc`: two objects with one key are one entry of the cache.
unfoldable pub same_key : Object → Object → Bool
same_key p o = p.uid == o.uid

unfoldable pub is_unstructured : Form → Bool
is_unstructured other_type = false
is_unstructured _ = true

unfoldable pub is_pointer : Form → Bool
is_pointer pointer = true
is_pointer _ = false
