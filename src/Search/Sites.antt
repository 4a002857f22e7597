-- ===== src/Search/Sites.antt =====
-- Where src/engines/bing.c, src/engines/duck.c, src/engines/googlev1.c and src/engines/googlev2.c differ.
use gnugol.Base.{◌≡◌, true, some, List, [], ◌∷◌, ℤ, pos, negsuc, Bytes, codes}
use gnugol.Search.Bing.{bing_fields}
use gnugol.Search.Custom.{custom_fields}
use gnugol.Search.Duck.{duck_fields}
use gnugol.Search.Google.{google_fields}
use gnugol.Search.Results.{Fields}
use gnugol.Search.Json.{JsonLibrary}

pub data Site : Type 0 where
  bing duck google custom : Site

abbrev pub fields_of : Site → Fields
fields_of bing = bing_fields
fields_of duck = duck_fields
fields_of google = google_fields
fields_of custom = custom_fields

-- The keys of the objects on the way to the array of the entries, and that of the array.
abbrev pub route_of : Site → List Bytes × Bytes
route_of bing = (codes "SearchResponse" ∷ codes "Web" ∷ [], codes "Results")
route_of duck = ([], codes "RelatedTopics")
route_of google = (codes "responseData" ∷ [], codes "results")
route_of custom = (codes "handleResponse" ∷ [], codes "items")

-- What is reported where nothing is received, and what is returned there.
abbrev pub refusal_of : Site → Bytes
refusal_of bing = codes "url failed to work: %s\n"
refusal_of duck = codes "url failed to work: %s"
refusal_of google = codes "url failed to work: %s"
refusal_of custom = codes "url failed to work: %s"

abbrev pub code_of : Site → ℤ
code_of bing = pos 1
code_of duck = negsuc 0
code_of google = negsuc 0
code_of custom = pos 1

-- The array is found in the value along the keys.
abbrev pub Reaches : (j : JsonLibrary) → j.Json → List Bytes → Bytes → j.Json → Type 0
Reaches j from [] key array = (j.object_get from key ≡ some array) × (j.is_array array ≡ true)
Reaches j from (k ∷ ks) key array =
    (value : j.Json) × (j.object_get from k ≡ some value) × Reaches j value ks key array
