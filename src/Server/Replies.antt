-- ===== src/Server/Replies.antt =====
-- The server answers every packet.
use gnugol.Base.{
  ℕ, ◌<◌, ◌≡◌, refl, false, not, ◌&&◌, List, [], ◌∷◌, ◌++◌, leb, Bytes, length, take, until_nul, ok,
  arith, All,
}
use gnugol.Server.Loop.{
  Exchange, packet_size, Event, failed, received, Reply, log_request, answer_to, serve_packet,
  serve,
}
use gnugol.Server.Options.{ServerOptions}

-- The query in a packet.
abbrev pub query_of : Bytes → Bytes
query_of packet = until_nul (take packet_size packet)

module _ {Address : Type 0} where
  -- A packet whose query the array of the server holds.
  abbrev pub Fits : ℕ → Event Address → Type 0
  Fits size failed = Unit
  Fits size (received from packet) =
      (length (query_of packet) < size) × (length (query_of packet) < packet_size)

  -- What the packets are to be answered with, one after the other.
  unfoldable pub replies : (Bytes → Bytes) → List (Event Address) → List (Reply Address)
  replies answer [] = []
  replies answer (failed ∷ events) = replies answer events
  replies answer (received from packet ∷ events) =
      record { to = from; bytes = answer (query_of packet) ++ 0 ∷ [] } ∷ replies answer events

  -- Where the prints are off or look the name up, and every packet that arrives holds a query that
  -- the array takes, the loop runs on through whatever `recvfrom` delivers: each packet is answered
  -- once, in the order of arrival, at the address it came from, with the answer to its own query,
  -- and a failed call changes nothing.
  pub serve-replies :
      (gscrape : Bytes → Bytes) (size : ℕ) (o : ServerOptions) (events : List (Event Address))
      (q : Exchange)
      → (o.verbose && o.debug && not o.reverselookup) ≡ false
      → All (Fits size) events
      → (after : Exchange) × (serve gscrape size o events q
          ≡ ok (after, replies (answer_to gscrape o) events))
  unfolding serve serve_packet log_request replies
  serve-replies gscrape size o [] q quiet h = (q, refl)
  serve-replies gscrape size o (failed ∷ events) q quiet h =
      serve-replies gscrape size o events q quiet h.1
  serve-replies gscrape size o (received from packet ∷ events) q quiet h =
      let query : Bytes = query_of packet in
      let whole : leb packet_size (length query) ≡ false = ground arith in
      let room : leb size (length query) ≡ false = ground arith in
      let (after, run) =
        serve-replies gscrape size o events
          (record { query = query; answer = answer_to gscrape o query }) quiet h.1 in
      (after, rw (whole, room, quiet, run) refl)
