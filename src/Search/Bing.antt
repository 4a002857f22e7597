-- ===== src/Search/Bing.antt =====
-- src/engines/bing.c.
use gnugol.Base.{
  ltb, Option, none, some, [], ◌∷◌, if◌then◌else◌, pos, negsuc, Bytes, codes, length, Result, ok,
  fault, overrun, ◌>>=◌,
}
use gnugol.Clib.Printf.{str, int}
use gnugol.Format.Buffers.{oute}
use gnugol.Query.{QueryOptions}
use gnugol.Search.Json.{Answer, get_obj, get_array}
use gnugol.Search.Query.{
  Services, trace_any, clamp_safe, at_most, read_key, print_url, fetch, parse_answer, trace_url,
}
use gnugol.Search.Results.{Fields, print_array}
use gnugol.Url.Escape.{url_escape_utf8}

abbrev bing_site : Bytes
bing_site =
    codes
      "http://api.bing.net/json.aspx?AppId=%s&Version=2.2&Market=%s&Query=%s&Sources=web&Web.Count=%d&JsonType=raw"

abbrev bing_license : Bytes
bing_license = codes "http://www.bing.com/developers/createapp.aspx"

abbrev too_long : Bytes
too_long = codes "Keywords exceed size of space set aside"

-- The keywords, escaped, in `char uukeywords[1280]`.
unfoldable pub escaped_keywords : QueryOptions → Result Bytes
escaped_keywords q =
    if q.url_escape
    then ok q.keywords
    else (url_escape_utf8 q.keywords >>= λ out.
        if ltb (length out) 1280 then ok out else fault overrun)

abbrev with_key : QueryOptions → Option Bytes → Answer
with_key q none = do
  told ← oute q (codes "For bing, you need a license key from: %s\n") (str bing_license ∷ [])
  ok (negsuc 0, told)
with_key q (some key) =
    let ready = record q { nresults = at_most 10 q.nresults; safe = clamp_safe q.safe } in
    if ltb (length q.keywords) 1280
    then (do
      keywords ← escaped_keywords ready
      (size, string) ←
          print_url bing_site
            (str key ∷ str (codes "en-US") ∷ str keywords ∷ int ready.nresults ∷ [])
      told ←
          trace_any (record ready { querystr = string }) (codes "%s\n%s\n")
            (str q.keywords ∷ str string ∷ [])
      ok (pos size, told))
    else (do told ← oute ready too_long []; ok (negsuc 0, told))

abbrev pub bing_fields : Fields
bing_fields = record { url = codes "Url"; title = codes "Title"; snippet = codes "Description" }

module _ (s : Services) where
  -- `setup(q)`. The parameters of the languages are filled in and not used.
  unfoldable pub bing_setup : QueryOptions → Answer
  unfolding read_key escaped_keywords print_url
  bing_setup q = read_key s.env (codes "bingkey") >>= with_key q

  -- `search(q)`, from the parsed answer on.
  unfoldable pub bing_results : QueryOptions → s.json.Json → Answer
  bing_results q root = get_obj s.json q root (codes "SearchResponse") λ response.
      get_obj s.json q response (codes "Web") λ web.
        get_array s.json q web (codes "Results")
          λ results. print_array s.json s.utf8 bing_fields q results

  -- `search(q)`
  unfoldable pub bing_search : QueryOptions → Answer
  bing_search q = trace_url (codes "%s: trying url: %s\n") q >>= λ asked.
      fetch s (codes "url failed to work: %s\n") (pos 1) asked λ text.
        trace_url (codes "%s: get url request succeeded: %s\n") asked >>= λ got.
        parse_answer s text (pos 1) got λ root.
          trace_url (codes "%s: got json url request!: %s\n") got >>= λ parsed.
          bing_results parsed root
