-- ===== src/Search/Google.antt =====
-- src/engines/googlev1.c, and what src/engines/googlev2.c does as it does.
use gnugol.Base.{ℕ, Option, none, some, [], ◌∷◌, negsuc, Bytes, codes, Result, ok, ◌>>=◌}
use gnugol.Clib.Printf.{str, int}
use gnugol.Format.Buffers.{oute}
use gnugol.Query.{QueryOptions}
use gnugol.Search.Json.{Answer, get_obj, get_array}
use gnugol.Search.Query.{
  Services, trace, trace_url, clamp_safe, at_most, safe_name, language_parameter, read_key,
  print_url, store_url, request,
}
use gnugol.Search.Results.{Fields, print_array}

abbrev pub google_site : Bytes
google_site = codes "http://ajax.googleapis.com/ajax/services/search/web?v=1.0"

abbrev pub google_license : Bytes
google_license = codes "I don't know if you can even get one anymore."

abbrev pub key_format : Bytes
key_format = codes "A license key to search google is recommended. You can get one from: %s"

-- The message where no key was read.
unfoldable pub recommend_key : Bytes → Bytes → QueryOptions → Option Bytes → Result QueryOptions
unfolding oute
recommend_key format url q none = oute q format (str url ∷ [])
recommend_key format url q (some key) = ok q

-- The steps from the check of `safe` to the trace of the keywords.
unfoldable pub google_limits : QueryOptions → Result QueryOptions
google_limits q = do
  name ← safe_name (clamp_safe q.safe)
  safe ←
      trace 5 (record q { safe = clamp_safe q.safe }) (codes "google: safesearch=%s\n")
        (str name ∷ [])
  trace 4 (record safe { nresults = at_most 8 safe.nresults }) (codes "google: KEYWORDS = %s\n")
      (str safe.keywords ∷ [])

-- The URL where there is no key.
unfoldable pub url_without_key : Bytes → QueryOptions → Result (ℕ × Bytes)
url_without_key site q = do
  name ← safe_name q.safe
  print_url (codes "%s&rsz=%d&start=%d&safe=%s%s%s&q=%s") (
      str site
      ∷ int q.nresults
      ∷ int q.position
      ∷ str name
      ∷ str (language_parameter (codes "&hl=") q.input_language)
      ∷ str (language_parameter (codes "&lr=") q.output_language)
      ∷ str q.keywords
      ∷ [])

-- The URL, with the key where there is one.
unfoldable pub google_url : QueryOptions → Option Bytes → Result (ℕ × Bytes)
google_url q none = url_without_key google_site q
google_url q (some key) = do
  name ← safe_name q.safe
  print_url (codes "%s&key=%s&rsz=%d&start=%d&safe=%s%s%s&q=%s") (
      str google_site
      ∷ str key
      ∷ int q.nresults
      ∷ int q.position
      ∷ str name
      ∷ str (language_parameter (codes "&hl=") q.input_language)
      ∷ str (language_parameter (codes "&lr=") q.output_language)
      ∷ str q.keywords
      ∷ [])

abbrev pub google_fields : Fields
google_fields = record {
  url = codes "url";
  title = codes "titleNoFormatting";
  snippet = codes "content";
}

module _ (s : Services) where
  -- `setup(q)`
  unfoldable pub google_setup : QueryOptions → Answer
  google_setup q = do
    entered ← trace 9 q (codes "Entering Setup\n") []
    key ← read_key s.env (codes "googlekey")
    keyed ← recommend_key key_format google_license entered key
    ready ← google_limits keyed
    url ← google_url ready key
    store_url ready url

  -- `search(q)`, from the parsed answer on.
  unfoldable pub google_results : QueryOptions → s.json.Json → Answer
  google_results q root = get_obj s.json q root (codes "responseData") λ response.
      get_array s.json q response (codes "results")
        λ results. print_array s.json s.utf8 google_fields q results

  -- `search(q)`
  unfoldable pub google_search : QueryOptions → Answer
  google_search q = trace_url (codes "%s: trying url: %s\n") q >>= λ asked.
      request s (codes "url failed to work: %s") (negsuc 0) asked (google_results asked)
