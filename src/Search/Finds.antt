-- ===== src/Search/Finds.antt =====
-- A whole search of an engine that asks a web service, from the request to the printed rows:
-- src/engines/bing.c, src/engines/duck.c, src/engines/googlev1.c and src/engines/googlev2.c.
use gnugol.Base.{
  ℕ, ◌<◌, ◌≡◌, refl, ◌∙◌, true, false, none, some, inl, inr, List, [], ◌∷◌, ltb, arith, ℤ, pos,
  nonzero, Bytes, codes, length, until_nul, ok, ◌>>=◌,
}
use gnugol.Clib.Printf.{Arg, str, num}
use gnugol.Format.Buffers.{oute}
use gnugol.Format.Options.{gnugol_header_out, gnugol_footer_out}
use gnugol.Handy.Request.{jsonrequest, received, jsonrequest-received}
use gnugol.Query.{QueryOptions}
use gnugol.Search.Bing.{bing_search, bing_results}
use gnugol.Search.Custom.{custom_search, custom_results}
use gnugol.Search.Duck.{duck_search, duck_results}
use gnugol.Search.Google.{google_search, google_results}
use gnugol.Search.Results.{print_array}
use gnugol.Search.Json.{Answer, get_obj-some, get_array-some}
use gnugol.Search.Prints.{Row, RowsFrom, print_rows, print_array-print_rows}
use gnugol.Search.Query.{Services, request, fetch, parse_answer, trace_any}
use gnugol.Search.Sites.{
  bing, duck, google, custom, Site, fields_of, route_of, refusal_of, code_of, Reaches,
}

module _ (s : Services) (q : QueryOptions) where
  -- The function `search` of the site's file, and its part from the parsed answer on.
  abbrev pub search_of : Site → Answer
  search_of bing = bing_search s q
  search_of duck = duck_search s q
  search_of google = google_search s q
  search_of custom = custom_search s q

  abbrev results_of : Site → s.json.Json → Answer
  results_of bing root = bing_results s q root
  results_of duck root = duck_results s q root
  results_of google root = google_results s q root
  results_of custom root = custom_results s q root

  -- The text of the answer to the URL that `setup` left.
  unfoldable pub answer : Bytes
  answer = until_nul (received (s.curl.chunks q.querystr))

  pub record Answered : Type 0 where
    pub init : s.curl.init ≡ true
    pub malloc : s.curl.malloc ≡ true
    pub status : s.curl.status q.querystr ≡ 0
    pub code : s.curl.code q.querystr ≡ 200
    pub room : length (received (s.curl.chunks q.querystr)) < 65535

  jsonrequest-answer : Answered → jsonrequest s.curl q.querystr ≡ some answer
  unfolding answer
  jsonrequest-answer a =
      let fits : ltb (length (received (s.curl.chunks q.querystr))) 65535 ≡ true =
        ground (arith, a.room) in
      jsonrequest-received s.curl q.querystr a.init a.malloc a.status a.code ∙ rw fits refl

  trace_any-quiet :
      (format : Bytes) (args : List Arg) → q.debug ≡ pos 0 → trace_any q format args ≡ ok q
  unfolding trace_any
  trace_any-quiet format args quiet =
      let off : nonzero q.debug ≡ false = rw quiet (ground arith) in rw off refl

  asks :
      (site : Site)
      → q.debug ≡ pos 0
      → search_of site
        ≡ fetch s
            (refusal_of site)
            (code_of site)
            q
            (λ text. parse_answer s text (code_of site) q (results_of site))
  unfolding bing_search duck_search google_search custom_search request
  asks bing quiet =
      rw
        (
          trace_any-quiet (codes "%s: trying url: %s\n") _ quiet,
          trace_any-quiet (codes "%s: get url request succeeded: %s\n") _ quiet,
          trace_any-quiet (codes "%s: got json url request!: %s\n") _ quiet,
        )
        refl
  asks duck quiet = rw (trace_any-quiet (codes "%s: trying url: %s\n") _ quiet) refl
  asks google quiet = rw (trace_any-quiet (codes "%s: trying url: %s\n") _ quiet) refl
  asks custom quiet = rw (trace_any-quiet (codes "trying url: %s") _ quiet) refl

  module _ (code : ℤ) where
    fetch-none :
        (refusal : Bytes) (body : Bytes → Answer)
        → jsonrequest s.curl q.querystr ≡ none
        → fetch s refusal code q body
          ≡ (oute q refusal (str q.querystr ∷ []) >>= λ told. ok (code, told))
    unfolding fetch
    fetch-none refusal body got = rw (got, fetch) refl

    fetch-some :
        (refusal text : Bytes) (body : Bytes → Answer)
        → jsonrequest s.curl q.querystr ≡ some text
        → fetch s refusal code q body ≡ body text
    unfolding fetch
    fetch-some refusal text body got = rw (got, fetch) refl

    parse_answer-inl :
        (text message : Bytes) (line : ℕ) (body : s.json.Json → Answer)
        → s.json.loads text ≡ inl (line, message)
        → parse_answer s text code q body ≡ (
            oute q (codes "error: on line %d: %s\n") (num line ∷ str message ∷ []) >>= λ told.
            ok (code, told))
    unfolding parse_answer
    parse_answer-inl text message line body loads = rw (loads, parse_answer) refl

    parse_answer-inr :
        (text : Bytes) (root : s.json.Json) (body : s.json.Json → Answer)
        → s.json.loads text ≡ inr root
        → parse_answer s text code q body ≡ body root
    unfolding parse_answer
    parse_answer-inr text root body loads = rw (loads, parse_answer) refl

  results_of-print_array :
      (site : Site) (root array : s.json.Json)
      → Reaches s.json root (route_of site).0 (route_of site).1 array
      → results_of site root ≡ print_array s.json s.utf8 (fields_of site) q array
  unfolding bing_results duck_results google_results custom_results
  results_of-print_array bing root array (response, at, (web, on, (here, is))) =
      get_obj-some s.json q root (codes "SearchResponse") response _ at
      ∙ get_obj-some s.json q response (codes "Web") web _ on
      ∙ get_array-some s.json q web (codes "Results") array _ here is
  results_of-print_array duck root array (here, is) =
      get_array-some s.json q root (codes "RelatedTopics") array _ here is
  results_of-print_array google root array (response, at, (here, is)) =
      get_obj-some s.json q root (codes "responseData") response _ at
      ∙ get_array-some s.json q response (codes "results") array _ here is
  results_of-print_array custom root array (response, at, (here, is)) =
      get_obj-some s.json q root (codes "handleResponse") response _ at
      ∙ get_array-some s.json q response (codes "items") array _ here is

  -- Where nothing is traced, the URL is answered with fewer than 65535 bytes, and these parse to a
  -- value where the site's keys lead to an array that holds just the rows, the site's `search` does
  -- just what printing the header, then each row once and in their order, then the footer does, and
  -- returns 0 if that leaves no array; where one of these prints does, as at a title or a snippet of
  -- 2048 bytes or more, so does the search. The number of rows does not depend on `nresults`.
  pub search_of-print_rows :
      (site : Site) (root array : s.json.Json) (rs : List Row)
      → q.debug ≡ pos 0
      → Answered
      → s.json.loads answer ≡ inr root
      → Reaches s.json root (route_of site).0 (route_of site).1 array
      → s.json.array_size array ≡ length rs
      → RowsFrom s.json s.utf8 (fields_of site) array 0 rs
      → search_of site ≡ (
          gnugol_header_out s.utf8 q >>= λ headed. print_rows s.utf8 headed rs >>= λ last.
          gnugol_footer_out last >>= λ foot. ok (pos 0, foot))
  search_of-print_rows site root array rs quiet a loads reaches size rows =
      asks site quiet
      ∙ fetch-some (code_of site) _ answer _ (jsonrequest-answer a)
      ∙ parse_answer-inr (code_of site) answer root _ loads
      ∙ results_of-print_array site root array reaches
      ∙ print_array-print_rows s.json s.utf8 (fields_of site) array rs q size rows

  -- Where nothing is traced and nothing is received from the URL, the site's `search` returns its
  -- code for a failure, with a message in `err` that names the URL, and prints nothing else.
  search_of_refused :
      (site : Site)
      → q.debug ≡ pos 0
      → jsonrequest s.curl q.querystr ≡ none
      → search_of site
        ≡ (oute q (refusal_of site) (str q.querystr ∷ []) >>= λ told. ok (code_of site, told))
  search_of_refused site quiet got =
      asks site quiet ∙ fetch-none (code_of site) (refusal_of site) _ got

  -- Where nothing is traced and the text that is received does not parse, the site's `search` returns
  -- its code for a failure, with the line and the error in `err`, and prints nothing else.
  search_of_unparsed :
      (site : Site) (text message : Bytes) (line : ℕ)
      → q.debug ≡ pos 0
      → jsonrequest s.curl q.querystr ≡ some text
      → s.json.loads text ≡ inl (line, message)
      → search_of site ≡ (
          oute q (codes "error: on line %d: %s\n") (num line ∷ str message ∷ []) >>= λ told.
          ok (code_of site, told))
  search_of_unparsed site text message line quiet got loads =
      asks site quiet
      ∙ fetch-some (code_of site) (refusal_of site) text _ got
      ∙ parse_answer-inl (code_of site) text message line _ loads
