-- ===== src/Utils/Store/Examples.antt =====
-- Concrete runs of the cache.
use kahu.Base.Integer.{pos, negsuc, parse_int}
use kahu.Utils.Store.{list, list_keys, get, delete, text, ThreadSafeStore, new_store}
use kahu.Utils.Store.Revision.{store_clean, Meta}
use kahu.Utils.Store.Contents.{
  Request, add_request, update_request, delete_request, get_request, serve_all, specify_all,
  view_of, serve_all-specify_all,
}
use kahu.Utils.Store.Newest.{revision_at, update_all, newest, nil, cons, update_all-newest}
use kahu.Base.{remove, String, ◌≡◌, refl, none, some, List, [], ◌∷◌, Result, ok, at_key}

-- An object is its key with its revision.
abbrev Versioned : Type 0
Versioned = String × String

abbrev key_of : Versioned → Result String
key_of o = ok o.0

abbrev reader : Meta Versioned
reader = record { meta_key = key_of; resource_version = λ o. ok o.1 }

abbrev cached : String → ThreadSafeStore Versioned
cached revision = record { items = ("daily", text revision) ∷ []; key_func = key_of }

parse_seven : parse_int "7" ≡ some (pos 7)
unfolding parse_int
parse_seven = refl

parse_negative : parse_int "-12" ≡ some (negsuc 11)
unfolding parse_int
parse_negative = refl

parse_past_end : parse_int "9223372036854775808" ≡ none
unfolding parse_int
parse_past_end = refl

cached_word : at_key (cached "new").items "daily" ≡ some (text "new")
unfolding at_key
cached_word = refl

update_all-newest_example :
    revision_at
      (update_all reader (new_store key_of) (("daily", "7") ∷ ("daily", "-12") ∷ [])).0
      "daily"
    ≡ newest "daily" none (("daily", pos 7) ∷ ("daily", negsuc 11) ∷ [])
update_all-newest_example =
    update_all-newest reader key_of (("daily", "7") ∷ ("daily", "-12") ∷ [])
      (("daily", pos 7) ∷ ("daily", negsuc 11) ∷ [])
      (cons
        (record {
          keyed = refl;
          same_key = refl;
          version = "7";
          versioned = refl;
          parsed = parse_seven;
        })
        (cons
          (record {
            keyed = refl;
            same_key = refl;
            version = "-12";
            versioned = refl;
            parsed = parse_negative;
          })
          nil))
      "daily"

abbrev requests : List (Request Versioned)
requests =
    add_request ("daily", "7") (text "7")
    ∷ update_request ("daily", "8") (text "8")
    ∷ get_request ("daily", "9")
    ∷ delete_request ("daily", "9")
    ∷ []

serve_all-specify_all_example :
    ((serve_all (cached "7") requests).1 ≡ (specify_all key_of (view_of (cached "7")) requests).1)
    × (view_of (serve_all (cached "7") requests).0
        ≡ (specify_all key_of (view_of (cached "7")) requests).0)
serve_all-specify_all_example = serve_all-specify_all (cached "7") requests

listed : (list (cached "7") ≡ text "7" ∷ []) × (list_keys (cached "7") ≡ "daily" ∷ [])
unfolding list list_keys
listed = (refl, refl)

cleaned :
    store_clean reader (cached "7") ("daily", "9")
    ≡ (record { items = []; key_func = key_of }, none)
unfolding store_clean get delete at_key remove
cleaned = refl
