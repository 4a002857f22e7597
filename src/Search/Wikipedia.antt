-- ===== src/Search/Wikipedia.antt =====
-- src/engines/wikipedia.c, and the plugins that do nothing yet: src/engines/dns.c, src/engines/man.c,
-- src/engines/omega.c and src/engines/opensearch.c.
use gnugol.Base.{◌-◌, [], ◌∷◌, pos, Bytes, codes, length, take, ok, fault, bad_read, ◌>>=◌}
use gnugol.Clib.Printf.{str, sprintf}
use gnugol.Query.{QueryOptions}
use gnugol.Search.Json.{Answer, get_obj}
use gnugol.Search.Query.{Services, trace_any, at_most, url_size, request}

abbrev wikipedia_site : Bytes
wikipedia_site =
    codes "http://en.wikipedia.org/w/api.php?action=query&prop=info&inprop=url&format=json&titles="

-- `setup(q)`
unfoldable pub wikipedia_setup : QueryOptions → Answer
wikipedia_setup q = do
  let ready = record q { nresults = at_most 10 q.nresults }
  text ← sprintf (codes "%s%s") (str wikipedia_site ∷ str ready.keywords ∷ [])
  told ← trace_any ready (codes "KEYWORDS = %s\n") (str ready.keywords ∷ [])
  ok (pos (length text), record told { querystr = take (url_size - 1 - 1) text })

module _ (s : Services) where
  -- `search(q)`. `GETSTRING(page,query)` reads `page`, which nothing has set; what is behind it is
  -- not reached.
  unfoldable pub wikipedia_search : QueryOptions → Answer
  wikipedia_search q = trace_any q (codes "trying url: %s") (str q.querystr ∷ []) >>= λ asked.
      request s (codes "url failed to work: %s") (pos 1) asked λ root.
        get_obj s.json asked root (codes "query")
          λ query. get_obj s.json asked query (codes "pages") λ pages. fault bad_read

-- `return EOPNOTSUPP`, which is 95 on Linux.
abbrev not_supported : QueryOptions → Answer
not_supported q = ok (pos 95, q)

-- `setup(q)` and `search(q)` of the four other files.
unfoldable pub dns_setup : QueryOptions → Answer
dns_setup q = not_supported q

unfoldable pub dns_search : QueryOptions → Answer
dns_search q = not_supported q

unfoldable pub man_setup : QueryOptions → Answer
man_setup q = not_supported q

unfoldable pub man_search : QueryOptions → Answer
man_search q = not_supported q

unfoldable pub omega_setup : QueryOptions → Answer
omega_setup q = not_supported q

unfoldable pub omega_search : QueryOptions → Answer
omega_search q = not_supported q

unfoldable pub opensearch_setup : QueryOptions → Answer
opensearch_setup q = not_supported q

unfoldable pub opensearch_search : QueryOptions → Answer
opensearch_search q = not_supported q
