-- ===== src/Search/Duck.antt =====
-- src/engines/duck.c.
use gnugol.Base.{[], ◌∷◌, negsuc, Bytes, codes, ◌>>=◌}
use gnugol.Clib.Printf.{str}
use gnugol.Query.{QueryOptions}
use gnugol.Search.Json.{Answer, get_array}
use gnugol.Search.Query.{
  Services, trace, trace_url, clamp_safe, at_most, safe_name, print_url, store_url, request,
}
use gnugol.Search.Results.{Fields, print_array}

abbrev pub duck_site : Bytes
duck_site = codes "https://duckduckgo.com/?t=gnugol&format=json&no_html=1"

-- `setup(q)`
unfoldable pub duck_setup : QueryOptions → Answer
unfolding trace safe_name store_url
duck_setup q = do
  entered ← trace 9 q (codes "Entering Setup\n") []
  name ← safe_name (clamp_safe entered.safe)
  safe ←
      trace 5 (record entered { safe = clamp_safe entered.safe }) (codes "duck: safesearch=%s\n")
        (str name ∷ [])
  ready ←
      trace 4 (record safe { nresults = at_most 8 safe.nresults }) (codes "duck: KEYWORDS = %s\n")
        (str safe.keywords ∷ [])
  url ← print_url (codes "%s&q=%s") (str duck_site ∷ str ready.keywords ∷ [])
  store_url ready url

abbrev pub duck_fields : Fields
duck_fields = record { url = codes "FirstURL"; title = codes "Text"; snippet = codes "Text" }

module _ (s : Services) where
  -- `search(q)`, from the parsed answer on.
  unfoldable pub duck_results : QueryOptions → s.json.Json → Answer
  duck_results q root =
      get_array s.json q root (codes "RelatedTopics")
        λ topics. print_array s.json s.utf8 duck_fields q topics

  -- `search(q)`
  unfoldable pub duck_search : QueryOptions → Answer
  duck_search q = trace_url (codes "%s: trying url: %s\n") q >>= λ asked.
      request s (codes "url failed to work: %s") (negsuc 0) asked (duck_results asked)
