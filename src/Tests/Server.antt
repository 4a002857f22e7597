-- ===== src/Tests/Server.antt =====
-- The server, its client and src/common/parser.c at concrete inputs.
use gnugol.Answer.Bounds.{Outcome, answer_parse-Outcome}
use gnugol.Answer.Full.{answer_parse_full}
use gnugol.Answer.Lines.{is_entry, section, IsEntry}
use gnugol.Answer.RoundTrip.{Carried, answer, stored, answer_parse-answer}
use gnugol.Answer.{QueryData, answer_parse}
use gnugol.Base.{
  ℕ, ◌<◌, ◌≡◌, refl, true, false, ◌||◌, none, some, List, [], ◌∷◌, ◌++◌, map, ltb, if◌then◌else◌,
  pos, nonzero, Bytes, codes, length, All, IsText, all, all_sound, ltb→lt, ok, eq_bytes, arith,
  until_nul,
}
use gnugol.Cgi.Links.{listed, cgi_query-listed}
use gnugol.Cgi.{cgi_query, prints_twice}
use gnugol.Query.{QueryOptions, zeroed}
use gnugol.Server.Loop.{
  Exchange, Event, failed, received, dummy_answer, answer_to, serve, packet_size,
}
use gnugol.Server.Options.Settings.{settings, is_given, server_process_options-settings}
use gnugol.Server.Options.{no_options, ServerOptions, server_process_options}
use gnugol.Server.Replies.{Fits, replies, serve-replies}
use gnugol.Udp.Answered.{Sendable, network, query_main-served}
use gnugol.Udp.Request.{whole_request}
use gnugol.Answer.{
  parse_snippets, parse_titles, read_section, entries_from, read_entries, find, precedes, reaches,
  entry_at, next_line,
}
use gnugol.Clib.Strings.{starts, strstr, line_at, line_after}
use gnugol.Udp.{
  Undefined, build_query, head_line, cat, cat_if, print_if, host_of, received_of, take_answer,
  Network, query_main, max_mtu,
}

abbrev links : List Bytes
links =
    codes "http://www.teklibre.com"
    ∷ codes "http://www.lwn.net"
    ∷ codes "http://www.slashdot.org"
    ∷ codes "http://a.very.busted.url"
    ∷ codes "gnugol://test+query"
    ∷ []

abbrev snippets : List Bytes
snippets =
    codes "Teklibre is about to become the biggest albatross around David's head"
    ∷ codes "LWN ROCKS"
    ∷ codes "Slashdot Rules"
    ∷ codes "This is a very busted url"
    ∷ codes "One day we'll embed search right in the browser"
    ∷ []

unfoldable options : QueryOptions
unfolding zeroed
options = record zeroed { urls = true; snippets = pos 1; nresults = pos 10 }

abbrev asking : QueryData
asking = record {
  query = [];
  keywords = codes "free software";
  options = options;
  links = [];
  snippets = [];
  titles = [];
}

urls_on : options.urls ≡ true
unfolding options
urls_on = refl

snippets_on : nonzero options.snippets ≡ true
unfolding options
snippets_on = refl

titles_off : nonzero options.titles ≡ false
unfolding options zeroed
titles_off = refl

few : (ls : List Bytes) → all is_entry ls ≡ true → length ls < 8 → Carried ls
few ls entries short = record {
  lines = all_sound IsEntry is_entry (λ l h. h) ls entries;
  few = short;
}

codes-IsText : (text : Bytes) → all (ltb 0) text ≡ true → IsText text
codes-IsText text h = all_sound (λ c. 0 < c) (ltb 0) (λ c k. ltb→lt 0 c k) text h

links_few : Carried links
unfolding all is_entry eq_bytes
links_few = few links refl (omega arith)

snippets_few : Carried snippets
unfolding all is_entry eq_bytes
snippets_few = few snippets refl (omega arith)

nothing_few : Carried []
unfolding all
nothing_few = few [] refl (omega arith)

abbrev dummy : ServerOptions
dummy = record no_options { ipv6 = true; dummy = true }

abbrev answered : QueryData → Bytes → QueryData
answered q text = record q { query = text }

-- The answer of the server with `-D`, read by the client.
dummy_text : dummy_answer ≡ answer options links snippets [] []
unfolding dummy_answer options
dummy_text = refl

answer_parse-answer_example :
    answer_parse (answered asking (answer options links snippets [] []))
    ≡ ok (
      pos 5,
      record asking {
        query = answer options links snippets [] [];
        links = map some links;
        snippets = stored options.snippets snippets [];
        titles = stored options.titles [] [];
      },
    )
answer_parse-answer_example =
    answer_parse-answer (answered asking (answer options links snippets [] [])) links snippets [] []
      urls_on refl links_few snippets_few nothing_few

abbrev eight : List Bytes
eight =
    codes "a"
    ∷ codes "b"
    ∷ codes "c"
    ∷ codes "d"
    ∷ codes "e"
    ∷ codes "f"
    ∷ codes "g"
    ∷ codes "h"
    ∷ []

eight_entries : All IsEntry eight
unfolding is_entry eq_bytes
eight_entries = (refl, (refl, (refl, (refl, (refl, (refl, (refl, (refl, tt))))))))

answer_parse_full_example :
    answer_parse (answered asking (section (codes "LNK") eight (section (codes "SNP") snippets [])))
    ≡ ok (
      pos 8,
      record asking {
        query = section (codes "LNK") eight (section (codes "SNP") snippets []);
        links = map some eight;
        snippets =
            some (codes "Teklibre is about to become the biggest albatross around David's head")
            ∷ [];
      },
    )
answer_parse_full_example =
    answer_parse_full
      (answered asking (section (codes "LNK") eight (section (codes "SNP") snippets []))) eight
      (codes "Teklibre is about to become the biggest albatross around David's head")
      (codes "LWN ROCKS"
        ∷ codes "Slashdot Rules"
        ∷ codes "This is a very busted url"
        ∷ codes "One day we'll embed search right in the browser"
        ∷ [])
      [] urls_on snippets_on titles_off refl eight_entries snippets_few.lines.0 refl

abbrev pub undefined : Undefined
undefined = record { version = codes "2"; overlap = λ format text n. ok text }

abbrev pub packets : List (Event ℕ)
packets = received 1 (codes "one" ++ 0 ∷ []) ∷ failed ∷ received 2 (codes "two") ∷ []

abbrev pub echo : Bytes → Bytes
echo query = query

pub packets_fit : All (Fits 100) packets
unfolding until_nul
packets_fit = ((omega arith, omega arith), (tt, ((omega arith, omega arith), tt)))

serve-replies_example :
    (after : Exchange) × (serve echo 100 dummy packets (record { query = []; answer = [] })
      ≡ ok (after, replies (answer_to echo dummy) packets))
serve-replies_example =
    serve-replies echo 100 dummy packets (record { query = []; answer = [] }) refl packets_fit

server_process_options-settings_example :
    (set : ServerOptions) × All
      (λ s. s.field set ≡ (s.field dummy || is_given s.letter (codes "Fur")))
      settings
    × (server_process_options (codes "Fur") dummy
        ≡ (if set.help || set.longhelp then none else some set))
server_process_options-settings_example = server_process_options-settings (codes "Fur") dummy

sendable : Sendable undefined 2048 asking
unfolding options zeroed
sendable = record { first = refl; ten = refl; filled = refl; room = omega arith }

request-IsText : IsText (whole_request undefined asking)
unfolding all options zeroed
request-IsText = codes-IsText (whole_request undefined asking) refl

request_short : length (whole_request undefined asking) < 2048
unfolding options zeroed
request_short = omega arith

request_in_packet : length (whole_request undefined asking) < packet_size
unfolding options zeroed
request_in_packet = omega arith

answer-IsText : IsText (answer options links snippets [] [])
unfolding all options zeroed
answer-IsText = codes-IsText (answer options links snippets [] []) refl

answer_short : length (answer options links snippets [] []) < max_mtu
unfolding options zeroed
answer_short = omega arith

answer_fits : length (answer options links snippets [] []) < 2048
unfolding options zeroed
answer_fits = omega arith

dummy_answers :
    answer_to echo dummy (whole_request undefined asking) ≡ answer options links snippets [] []
unfolding answer_to
dummy_answers = dummy_text

query_main-served_example :
    query_main
      (network echo 2048 dummy [] (record { query = []; answer = [] }))
      undefined
      2048
      none
      asking
    ≡ ok (
      pos 5,
      record asking {
        query = answer options links snippets [] [];
        links = map some links;
        snippets = stored options.snippets snippets [];
        titles = stored options.titles [] [];
      },
    )
query_main-served_example =
    query_main-served echo 2048 dummy [] (record { query = []; answer = [] }) undefined 2048 none
      asking links snippets [] refl tt sendable request-IsText request_short request_in_packet
      dummy_answers answer-IsText answer_short answer_fits urls_on links_few snippets_few
      nothing_few

abbrev dummy_network : Network
dummy_network = network echo 2048 dummy [] (record { query = []; answer = [] })

abbrev answered_dummy : QueryData
answered_dummy = record asking {
  query = answer options links snippets [] [];
  links = map some links;
  snippets = stored options.snippets snippets [];
  titles = stored options.titles [] [];
}

asked_dummy :
    query_main dummy_network undefined 2048 (some (codes "::1")) asking ≡ ok (pos 5, answered_dummy)
asked_dummy =
    query_main-served echo 2048 dummy [] (record { query = []; answer = [] }) undefined 2048
      (some (codes "::1")) asking links snippets [] refl tt sendable request-IsText request_short
      request_in_packet dummy_answers answer-IsText answer_short answer_fits urls_on links_few
      snippets_few nothing_few

snippets_stored : stored options.snippets snippets [] ≡ map some snippets
unfolding options
snippets_stored = refl

abbrev asking_three : QueryData
asking_three = record asking { options = record options { nresults = pos 3 } }

abbrev one_answer : Network
one_answer = record {
  connects = λ host. true;
  reply = λ host query. some (codes "LNK\nhttp://a\nEND\nSNP\nA\nEND\n");
}

abbrev answered_three : QueryData
answered_three = record asking_three {
  query = codes "LNK\nhttp://a\nEND\nSNP\nA\nEND\n";
  links = some (codes "http://a") ∷ [];
  snippets = some (codes "A") ∷ [];
}

asked_three :
    query_main one_answer undefined 2048 (some (codes "::1")) asking_three
    ≡ ok (pos 1, answered_three)
unfolding query_main build_query head_line cat cat_if print_if host_of received_of take_answer
    answer_parse parse_snippets parse_titles read_section entries_from read_entries find precedes
    reaches entry_at next_line starts strstr line_at line_after until_nul options zeroed
asked_three = refl

cgi_query-listed_example :
    cgi_query one_answer undefined 2048 asking_three
    ≡ ok (
      answered_three,
      listed
          (prints_twice options.snippets options.titles)
          (codes "http://a" ∷ [])
          (codes "A" ∷ []),
    )
cgi_query-listed_example =
    cgi_query-listed one_answer undefined 2048 asking_three answered_three (codes "http://a" ∷ [])
      (codes "A" ∷ []) asked_three refl refl refl

abbrev arrived : QueryData
arrived = answered asking (answer options links snippets [] [])

answer_parse-Outcome_example : Outcome arrived (answer_parse arrived)
answer_parse-Outcome_example =
    answer_parse-Outcome arrived
      (record { links = omega arith; snippets = omega arith; titles = omega arith })
