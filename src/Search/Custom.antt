-- ===== src/Search/Custom.antt =====
-- src/engines/googlev2.c, the custom search.
use gnugol.Base.{ℕ, Option, none, some, [], ◌∷◌, pos, Bytes, codes, Result, ◌>>=◌}
use gnugol.Clib.Printf.{str}
use gnugol.Query.{QueryOptions}
use gnugol.Search.Google.{key_format, recommend_key, google_limits, url_without_key}
use gnugol.Search.Json.{Answer, get_obj, get_array}
use gnugol.Search.Query.{Services, trace, trace_any, read_key, print_url, store_url, request}
use gnugol.Search.Results.{Fields, print_array}

abbrev pub custom_site : Bytes
custom_site = codes "https://www.googleapis.com/customsearch/v1?"

abbrev pub custom_license : Bytes
custom_license = codes "https://developers.google.com/custom-search/v1/introduction"

-- The URL, with the key where there is one.
unfoldable pub custom_url : QueryOptions → Option Bytes → Result (ℕ × Bytes)
custom_url q none = url_without_key custom_site q
custom_url q (some key) =
    print_url (codes "%skey=%s&cx=012472956730922726645:gjqfh19akp4&q=%s")
      (str custom_site ∷ str key ∷ str q.keywords ∷ [])

abbrev pub custom_fields : Fields
custom_fields = record { url = codes "link"; title = codes "title"; snippet = codes "snippet" }

module _ (s : Services) where
  -- `setup(q)`
  unfoldable pub custom_setup : QueryOptions → Answer
  custom_setup q = do
    entered ← trace 9 q (codes "Entering Setup\n") []
    key ← read_key s.env (codes "googlekeyv2")
    keyed ← recommend_key key_format custom_license entered key
    ready ← google_limits keyed
    url ← custom_url ready key
    store_url ready url

  -- `search(q)`, from the parsed answer on.
  unfoldable pub custom_results : QueryOptions → s.json.Json → Answer
  custom_results q root = get_obj s.json q root (codes "handleResponse") λ response.
      get_array s.json q response (codes "items")
        λ items. print_array s.json s.utf8 custom_fields q items

  -- `search(q)`
  unfoldable pub custom_search : QueryOptions → Answer
  custom_search q = trace_any q (codes "trying url: %s") (str q.querystr ∷ []) >>= λ asked.
      request s (codes "url failed to work: %s") (pos 1) asked (custom_results asked)
