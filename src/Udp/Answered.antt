-- ===== src/Udp/Answered.antt =====
-- A query over UDP, from the request to the parsed answer, with the server of
-- src/gnugold/server/udp_server.c at the other end.
use gnugol.Answer.RoundTrip.{Carried, answer, stored, answer_parse-answer}
use gnugol.Answer.{QueryData, answer_parse}
use gnugol.Base.{
  is_empty, All, All-append, ℕ, zero, suc, ◌<◌, ◌≡◌, refl, ap, ◌∙◌, true, false, not, ◌&&◌, Option,
  none, some, List, [], ◌∷◌, ◌++◌, map, leb, ◌==◌, pos, Bytes, length, take, until_nul,
  until_nul_lem, take-all, IsText, Result, ok, fault, arith,
}
use gnugol.Server.Loop.{Exchange, Event, failed, received, Reply, answer_to, serve, packet_size}
use gnugol.Server.Options.{ServerOptions}
use gnugol.Server.Replies.{Fits, replies, serve-replies, query_of}
use gnugol.Udp.Request.{whole_request, build_query-whole_request}
use gnugol.Udp.{Undefined, Network, is_int, host_of, received_of, take_answer, query_main, max_mtu}

until_nul-take :
    (text junk : Bytes) (n : ℕ)
    → IsText text
    → length text < n
    → until_nul (take n (text ++ 0 ∷ junk)) ≡ text
unfolding until_nul
until_nul-take text junk zero h fits = absurd (omega arith)
until_nul-take [] junk (suc n) h fits = refl
until_nul-take (c ∷ cs) junk (suc n) h fits =
    let rest : until_nul (take n (cs ++ 0 ∷ junk)) ≡ cs =
      until_nul-take cs junk n h.1 (omega arith) in
    let here : (c == 0) ≡ false = ground (arith, h.0) in rw (here, rest) refl

-- What a client needs to send its whole request.
pub record Sendable (undefined : Undefined) (size : ℕ) (q : QueryData) : Type 0 where
  pub first : is_int q.options.position 0 ≡ true
  pub ten : is_int q.options.nresults 10 ≡ true
  pub filled : (is_empty q.keywords && not q.options.prime) ≡ false
  pub room : length (whole_request undefined q) < size

take_answer-answer :
    (size : ℕ) (text : Bytes) (q : QueryData)
    → length text < max_mtu
    → length text < size
    → take_answer size text q ≡ answer_parse (record q { query = text })
unfolding take_answer
take_answer-answer size text q short fits =
    let whole : leb max_mtu (length text) ≡ false = ground arith in
    let room : leb size (length text) ≡ false = ground arith in rw (whole, room) refl

query_main-take_answer :
    (net : Network) (undefined : Undefined) (size : ℕ) (host : Option Bytes) (q : QueryData)
    (text junk : Bytes)
    → Sendable undefined size q
    → net.connects (host_of host) ≡ true
    → net.reply (host_of host) (whole_request undefined q) ≡ some (text ++ 0 ∷ junk)
    → IsText text
    → length text < max_mtu
    → query_main net undefined size host q
      ≡ take_answer size text (record q { query = whole_request undefined q })
unfolding query_main received_of
query_main-take_answer net undefined size host q text junk s connected arrived h short =
    rw
      (
        build_query-whole_request undefined size q s.first s.ten s.filled s.room,
        connected,
        arrived,
        until_nul-take text junk max_mtu h short,
      )
      refl

-- The last reply, or `yet` where there is none.
unfoldable pub last_reply : Option Bytes → List (Reply Bytes) → Option Bytes
last_reply yet [] = yet
last_reply yet (r ∷ rs) = last_reply (some r.bytes) rs

unfoldable pub sent : Result (Exchange × List (Reply Bytes)) → Option Bytes
sent (fault why) = none
sent (ok (after, out)) = last_reply none out

-- The network whose one host is the server, started in `start`, when it has seen `earlier`: a packet
-- brings the last reply that is sent.
unfoldable pub network :
    (Bytes → Bytes) → ℕ → ServerOptions → List (Event Bytes) → Exchange → Network
network gscrape size o earlier start = record {
  connects = λ host. true;
  reply = λ host query. sent (serve gscrape size o (earlier ++ received host query ∷ []) start);
}

last_reply-replies :
    (answers : Bytes → Bytes) (yet : Option Bytes) (earlier : List (Event Bytes))
    (from packet : Bytes)
    → last_reply yet (replies answers (earlier ++ received from packet ∷ []))
      ≡ some (answers (query_of packet) ++ 0 ∷ [])
unfolding replies last_reply
last_reply-replies answers yet [] from packet = refl
last_reply-replies answers yet (failed ∷ earlier) from packet =
    last_reply-replies answers yet earlier from packet
last_reply-replies answers yet (received a p ∷ earlier) from packet =
    last_reply-replies answers (some (answers (query_of p) ++ 0 ∷ [])) earlier from packet

network-reply :
    (gscrape : Bytes → Bytes) (size : ℕ) (o : ServerOptions) (earlier : List (Event Bytes))
    (start : Exchange) (host query : Bytes)
    → (o.verbose && o.debug && not o.reverselookup) ≡ false
    → All (Fits size) earlier
    → IsText query
    → length query < size
    → length query < packet_size
    → (network gscrape size o earlier start).reply host query
      ≡ some (answer_to gscrape o query ++ 0 ∷ [])
unfolding network sent until_nul
network-reply gscrape size o earlier start host query quiet h text fits short =
    let same : query_of query ≡ query =
      ap until_nul (take-all packet_size query (omega arith)) ∙ until_nul_lem query text in
    let events : All (Fits size) (earlier ++ received host query ∷ []) =
      All-append (Fits size) earlier (received host query ∷ []) h (rw same (fits, short), tt) in
    let (after, run) =
      serve-replies gscrape size o (earlier ++ received host query ∷ []) start quiet events in
    rw (run, last_reply-replies (answer_to gscrape o) none earlier host query, same) refl

-- A client and the server together. Where the server prints nothing that needs a name and the
-- packets before were of a size it takes; where the client asks for URLs, from position 0 and for 10
-- results, with keywords or only to prime the connection, and its request is a text that fits both
-- arrays and a packet; and where what the server answers to it is a text of fewer than 1280 bytes
-- that fits the client's array, of fewer than eight URLs, snippets and titles, each a line, in the
-- sections that the client asked for: `query_main` returns the number of the URLs, and every line
-- stands in its array of the client, whatever the server was asked before.
pub query_main-served :
    (gscrape : Bytes → Bytes) (capacity : ℕ) (o : ServerOptions) (earlier : List (Event Bytes))
    (start : Exchange) (undefined : Undefined) (size : ℕ) (host : Option Bytes) (q : QueryData)
    (links snippets titles : List Bytes)
    → (o.verbose && o.debug && not o.reverselookup) ≡ false
    → All (Fits capacity) earlier
    → Sendable undefined size q
    → IsText (whole_request undefined q)
    → length (whole_request undefined q) < capacity
    → length (whole_request undefined q) < packet_size
    → answer_to gscrape o (whole_request undefined q) ≡ answer q.options links snippets titles []
    → IsText (answer q.options links snippets titles [])
    → length (answer q.options links snippets titles []) < max_mtu
    → length (answer q.options links snippets titles []) < size
    → q.options.urls ≡ true
    → Carried links
    → Carried snippets
    → Carried titles
    → query_main (network gscrape capacity o earlier start) undefined size host q
      ≡ ok (
        pos (length links),
        record q {
          query = answer q.options links snippets titles [];
          links = map some links;
          snippets = stored q.options.snippets snippets q.snippets;
          titles = stored q.options.titles titles q.titles;
        },
      )
unfolding network
query_main-served gscrape capacity o earlier start undefined size host q links snippets titles quiet
      h s text fits short same plain brief room on l n t =
    let reply : Bytes = answer q.options links snippets titles [] in
    query_main-take_answer (network gscrape capacity o earlier start) undefined size host q reply []
      s refl
      (network-reply gscrape capacity o earlier start (host_of host) (whole_request undefined q)
          quiet h text fits short
        ∙ ap (λ a. some (a ++ 0 ∷ [])) same)
      plain brief
    ∙ take_answer-answer size reply (record q { query = whole_request undefined q }) brief room
    ∙ answer_parse-answer (record q { query = reply }) links snippets titles [] on refl l n t
