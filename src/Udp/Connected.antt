-- ===== src/Udp/Connected.antt =====
-- `query_main` of src/gnugold/transports/udp.c over the sockets that `connect_client` of
-- src/gnugold/oldsrc/connect_client.c opens, in place of a network that is given.
use gnugol.Answer.{QueryData}
use gnugol.Base.{
  ℕ, ◌≡◌, refl, ◌∙◌, sym, Option, none, some, List, if◌then◌else◌, ℤ, negsuc, Bytes, Result, ok,
  ◌>>=◌, >>=-assoc, >>=-cong,
}
use gnugol.Sockets.Chosen.{chosen, with_socket, close-with_descriptor, connect_to-chosen}
use gnugol.Sockets.{
  Addrinfo, unspec, OpenSockets, found, System, client_hints, query_port, sock_dgram, is_socket,
  close, connect_client,
}
use gnugol.Udp.{Undefined, Network, build_query, host_of, received_of, take_answer, query_main}

-- What `write` and `read` exchange over a socket.
abbrev pub Wire : Type 0
Wire = ℕ → Bytes → Option Bytes

-- After `connect_client`.
unfoldable pub query_over :
    Wire → ℕ → QueryData → Option ℕ → OpenSockets → Result ((ℤ × QueryData) × OpenSockets)
query_over wire size q none h = ok ((negsuc 0, q), h)
query_over wire size q (some fd) h = do
  closed ← close fd h
  parsed ← take_answer size (received_of (wire fd q.query)) q
  ok (parsed, closed)

-- `query_main`, with the sockets that are open.
unfoldable pub query_connected :
    System
    → Wire
    → Undefined
    → ℕ
    → Option Bytes
    → QueryData
    → OpenSockets
    → Result ((ℤ × QueryData) × OpenSockets)
query_connected system wire undefined size host q h = do
  built ← build_query undefined size q
  connected ← connect_client system (host_of host) query_port unspec sock_dgram h
  query_over wire size built.1 connected.0 connected.1

abbrev over : Wire → Option ℕ → Bytes → Option Bytes
over wire none query = none
over wire (some fd) query = wire fd query

-- The network of which one socket is known.
abbrev pub network_of : Wire → Option ℕ → Network
network_of wire fd = record {
  connects = λ host. is_socket fd;
  reply = λ host query. over wire fd query;
}

query_over-network_of :
    (wire : Wire) (size : ℕ) (q : QueryData) (fd : Option ℕ) (h : OpenSockets) (host : Bytes)
    → query_over wire size q fd (with_socket fd h) ≡ (
        (if (network_of wire fd).connects host
          then take_answer size (received_of ((network_of wire fd).reply host q.query)) q
          else ok (negsuc 0, q))
        >>= λ out. ok (out, h))
unfolding query_over
query_over-network_of wire size q none h host = refl
query_over-network_of wire size q (some fd) h host = rw (close-with_descriptor fd h) refl

connected-chosen :
    (system : System) (host : Bytes) (addresses : List Addrinfo) (h : OpenSockets)
    → system.getaddrinfo host query_port (client_hints unspec sock_dgram) ≡ found addresses
    → let fd = chosen system system.connects h addresses in
      connect_client system host query_port unspec sock_dgram h ≡ ok (fd, with_socket fd h)
unfolding connect_client
connected-chosen system host addresses h there = rw there (connect_to-chosen system addresses h)

-- Where `getaddrinfo` gives addresses for the host, `query_main` over the sockets of `connect_client`
-- does as it does over a network that connects if one of the addresses yields a socket that is
-- connected, and that replies what is read over the first such socket; and where it returns, the
-- same sockets are open as before, the same lists are to be freed, and none listens that did not.
pub query_connected-query_main :
    (system : System) (wire : Wire) (undefined : Undefined) (size : ℕ) (host : Option Bytes)
    (q : QueryData) (addresses : List Addrinfo) (h : OpenSockets)
    → system.getaddrinfo (host_of host) query_port (client_hints unspec sock_dgram)
      ≡ found addresses
    → let fd = chosen system system.connects h addresses in
      query_connected system wire undefined size host q h
      ≡ (query_main (network_of wire fd) undefined size host q >>= λ out. ok (out, h))
unfolding query_connected query_main
query_connected-query_main system wire undefined size host q addresses h there =
    let fd : Option ℕ = chosen system system.connects h addresses in
    >>=-cong (build_query undefined size q) _ _ (λ built.
      rw (connected-chosen system (host_of host) addresses h there)
        (query_over-network_of wire size built.1 fd h (host_of host)))
    ∙ sym (>>=-assoc (build_query undefined size q) _ _)
