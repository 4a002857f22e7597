-- ===== src/Server/Loop.antt =====
-- `main` of src/gnugold/server/udp_server.c: its loop over what `recvfrom` delivers.
use gnugol.Base.{
  Option, ℕ, Bool, true, none, some, not, ◌&&◌, List, [], ◌∷◌, ◌++◌, leb, if◌then◌else◌, Bytes,
  codes, length, take, until_nul, Result, ok, fault, overrun, bad_read, ◌>>=◌,
}
use gnugol.Server.Options.{ServerOptions, no_options, server_process_options}

-- What the loop keeps of `QueryData`: what the two arrays read as.
pub record Exchange : Type 0 where
  pub query : Bytes
  pub answer : Bytes

-- `sizeof(b)`
abbrev pub packet_size : ℕ
packet_size = 65536

-- The answer with `-D`.
unfoldable pub dummy_answer : Bytes
dummy_answer =
    codes "LNK\n"
    ++ codes "http://www.teklibre.com\n"
    ++ codes "http://www.lwn.net\n"
    ++ codes "http://www.slashdot.org\n"
    ++ codes "http://a.very.busted.url\n"
    ++ codes "gnugol://test+query\n"
    ++ codes "END\n"
    ++ codes "SNP\n"
    ++ codes "Teklibre is about to become the biggest albatross around David's head\n"
    ++ codes "LWN ROCKS\n"
    ++ codes "Slashdot Rules\n"
    ++ codes "This is a very busted url\n"
    ++ codes "One day we'll embed search right in the browser\n"
    ++ codes "END\n"

-- What `recvfrom` returns: an error, or what it stores of a packet and where that came from.
pub data Event (Address : Type 0) : Type 0 where
  failed : Event Address
  received : Address → Bytes → Event Address

-- What is sent to an address.
pub record Reply (Address : Type 0) : Type 0 where
  pub to : Address
  pub bytes : Bytes

-- The prints under `o->verbose & o->debug`: without a lookup of the name they pass `NULL` for `%s`.
unfoldable pub log_request : ServerOptions → Result (Unit {0})
log_request o = if o.verbose && o.debug && not o.reverselookup then fault bad_read else ok tt

-- What is copied to `answer`, or what the plugin leaves there.
unfoldable pub answer_to : (Bytes → Bytes) → ServerOptions → Bytes → Bytes
answer_to gscrape o query = if o.dummy then dummy_answer else gscrape query

-- `gnugol_plugin_gscrape` is a parameter: what it leaves in `answer`, which has been cleared, for a
-- query. `size` is that of the array `query`.
module _ {Address : Type 0} (gscrape : Bytes → Bytes) (size : ℕ) (o : ServerOptions) where
  -- One round, for a packet: `b` was cleared before it came.
  unfoldable pub serve_packet : Address → Bytes → Exchange → Result (Exchange × Reply Address)
  unfolding log_request
  serve_packet from packet q =
      let query = until_nul (take packet_size packet) in
      if leb packet_size (length query)
      then fault bad_read
      else if leb size (length query)
      then fault overrun
      else (do
        let answer = answer_to gscrape o query
        logged ← log_request o
        ok (
          record { query = query; answer = answer },
          record { to = from; bytes = answer ++ 0 ∷ [] },
        ))

  -- The loop, over what happens: the state it leaves and what it sends.
  unfoldable pub serve : List (Event Address) → Exchange → Result (Exchange × List (Reply Address))
  serve [] q = ok (q, [])
  serve (failed ∷ events) q = serve events q
  serve (received from packet ∷ events) q = do
    done ← serve_packet from packet q
    rest ← serve events done.0
    ok (rest.0, done.1 ∷ rest.1)

-- How the program ends, or how far it is: `usage` exits, `main` returns -1 without a socket, and
-- the loop goes on.
pub data Run (Address : Type 0) : Type 0 where
  usage no_socket : Run Address
  running : Exchange → List (Reply Address) → Run Address

unfoldable pub runs : {Address : Type 0} → Exchange × List (Reply Address) → Run Address
runs (q, out) = running q out

-- `main` behind the options; `listens` says whether `listen_server` gave a socket.
unfoldable pub start_server :
    {Address : Type 0}
    → (Bytes → Bytes)
    → ℕ
    → Bool
    → Option ServerOptions
    → List (Event Address)
    → Result (Run Address)
unfolding runs
start_server gscrape size listens none events = ok usage
start_server gscrape size listens (some o) events =
    if not listens
    then ok no_socket
    else (do end ← serve gscrape size o events (record { query = []; answer = [] }); ok (runs end))

-- `main`
unfoldable pub server_main :
    {Address : Type 0}
    → (Bytes → Bytes)
    → ℕ
    → Bool
    → List ℕ
    → List (Event Address)
    → Result (Run Address)
server_main gscrape size listens opts events =
    start_server gscrape size listens
      (server_process_options opts (record no_options { ipv6 = true })) events
