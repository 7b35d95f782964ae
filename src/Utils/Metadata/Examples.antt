-- ===== src/Utils/Metadata/Examples.antt =====
-- Concrete objects' metadata.
use kahu.Api.{ObjectMeta}
use kahu.Base.{[], ◌∷◌}

abbrev meta : ObjectMeta
meta = record { finalizers = "a" ∷ "b" ∷ []; annotations = ("owner", "ops") ∷ [] }
