-- ===== src/Udp.antt =====
-- The client of the server over UDP: `build_query` of src/gnugold/oldsrc/fit_results.c and
-- `query_main` of src/gnugold/transports/udp.c.
pub mod Request
pub mod Answered
pub mod Connected
use gnugol.Answer.{QueryData, answer_parse}
use gnugol.Base.{
  is_empty, ℕ, ◌+◌, Bool, true, false, not, ◌&&◌, Option, none, some, List, [], ◌∷◌, ◌++◌, ltb, leb,
  ◌==◌, if◌then◌else◌, ℤ, pos, negsuc, nonzero, Bytes, codes, length, take, until_nul, Result, ok,
  fault, overrun, bad_read, ◌>>=◌,
}

-- `strcat(query,text)` in an array of `size` bytes.
unfoldable pub cat : ℕ → Bytes → Bytes → Result Bytes
cat size text query =
    if ltb (length query + length text) size then ok (query ++ text) else fault overrun

-- `if(on) strcat(query,text);`
unfoldable pub cat_if : ℕ → Bool → Bytes → Bytes → Result Bytes
cat_if size on text query = if on then cat size text query else ok query

-- What C leaves undefined in `build_query`: the text that `sprintf` makes of `%g` and the `int`
-- `GNUGOL_PROTOCOL_VERSION`, and what the array holds after `sprintf(query,"%s…",query,…)`, which
-- copies it onto itself, for the format, the string before and the number.
pub record Undefined : Type 0 where
  pub version : Bytes
  pub overlap : Bytes → Bytes → ℤ → Result Bytes

-- `if(on) sprintf(query,format,query,n);` in an array of `size` bytes.
unfoldable pub print_if : Undefined → ℕ → Bool → Bytes → ℤ → Bytes → Result Bytes
print_if undefined size on format n query =
    if on
    then (do
      text ← undefined.overlap format query n
      if ltb (length text) size then ok text else fault overrun)
    else ok query

abbrev pub is_int : ℤ → ℕ → Bool
is_int (pos m) n = m == n
is_int (negsuc m) n = false

-- The line of what is asked for.
unfoldable pub head_line : Undefined → ℕ → QueryData → Result Bytes
head_line undefined size q = do
  start ← cat size (codes "GET GNGL/" ++ undefined.version ++ codes " ") []
  urls ← cat_if size q.options.urls (codes "LNK ") start
  titles ← cat_if size (nonzero q.options.titles) (codes "TLE ") urls
  snippets ← cat_if size (nonzero q.options.snippets) (codes "SNP ") titles
  ads ← cat_if size q.options.ads (codes "ADS ") snippets
  misc ← cat_if size q.options.misc (codes "MSC ") ads
  prime ← cat_if size q.options.prime (codes "PRM ") misc
  position ←
      print_if undefined size (not (is_int q.options.position 0)) (codes "%sPOS:%d ")
        q.options.position prime
  nresults ←
      print_if undefined size (not (is_int q.options.nresults 10)) (codes "%sRES:%d ")
        q.options.nresults position
  cat size (codes "\n") nresults

-- The keywords, or a newline where only the connection is primed.
abbrev pub body : Bytes → Bytes
body [] = codes "\n"
body (c ∷ cs) = c ∷ cs

-- What `build_query` returns, and `query` afterwards.
unfoldable pub build_query : Undefined → ℕ → QueryData → Result (ℤ × QueryData)
build_query undefined size q = do
  head ← head_line undefined size q
  if is_empty q.keywords && not q.options.prime
      then ok (negsuc 0, record q { query = head })
      else (do
        filled ← cat size (body q.keywords) head
        whole ← cat size (codes "\nEND\n") filled
        ok (pos 0, record q { query = whole }))

-- The network: whether a socket can be connected, and what `read` stores of the reply to what was
-- written to a host, if any comes.
pub record Network : Type 0 where
  pub connects : Bytes → Bool
  pub reply : Bytes → Bytes → Option Bytes

-- `MAX_MTU`
abbrev pub max_mtu : ℕ
max_mtu = 1280

unfoldable pub host_of : Option Bytes → Bytes
host_of none = codes "2001:4f8:3:36:2e0:81ff:fe23:90d3"
host_of (some host) = host

-- `answer`, which was cleared, after the `read`.
unfoldable pub received_of : Option Bytes → Bytes
received_of none = []
received_of (some packet) = until_nul (take max_mtu packet)

-- `strcpy(q->query,answer);` and the parser.
unfoldable pub take_answer : ℕ → Bytes → QueryData → Result (ℤ × QueryData)
take_answer size answer q =
    if leb max_mtu (length answer)
    then fault bad_read
    else if leb size (length answer)
    then fault overrun
    else answer_parse (record q { query = answer })

unfoldable pub query_main :
    Network → Undefined → ℕ → Option Bytes → QueryData → Result (ℤ × QueryData)
query_main net undefined size host q = do
  built ← build_query undefined size q
  if net.connects (host_of host)
      then take_answer size (received_of (net.reply (host_of host) built.1.query)) built.1
      else ok (negsuc 0, built.1)
