-- ===== src/Server/Listening.antt =====
-- `main` of src/gnugold/server/udp_server.c over the sockets that `listen_server` of
-- src/gnugold/oldsrc/listen_server.c opens.
use gnugol.Base.{
  ℕ, ◌≡◌, refl, ◌∙◌, true, false, none, some, List, Bytes, codes, Result, ok, ◌>>=◌, All, arith,
}
use gnugol.Server.Dummy.{start, server_main-dummy, kept_options}
use gnugol.Server.Loop.{
  Exchange, Event, Run, usage, running, dummy_answer, server_main, start_server,
}
use gnugol.Server.Options.Settings.{is_given}
use gnugol.Server.Options.{ServerOptions, no_options, set_options, server_process_options}
use gnugol.Server.Replies.{Fits, replies}
use gnugol.Sockets.Chosen.{chosen, with_listener, listen_server-chosen}
use gnugol.Sockets.{
  Addrinfo, unspec, OpenSockets, found, System, server_hints, listen_server, query_port, sock_dgram,
  is_socket,
}

abbrev pub own_host : Bytes
own_host = codes "::1"

-- `main`, with the sockets that are open.
unfoldable pub main_over :
    {Address : Type 0}
    → System
    → (Bytes → Bytes)
    → ℕ
    → List ℕ
    → List (Event Address)
    → OpenSockets
    → Result (Run Address × OpenSockets)
main_over system gscrape size opts events h =
    elim (server_process_options opts (record no_options { ipv6 = true })) [
      | none ↦ ok (usage, h)
      | some o ↦ (do
        tried ← listen_server system (some own_host) query_port unspec sock_dgram h
        run ← start_server gscrape size (is_socket tried.0) (some o) events
        ok (run, tried.1))
    ]

main_over-server_main :
    {Address : Type 0} (system : System) (gscrape : Bytes → Bytes) (size : ℕ) (opts : List ℕ)
    (events : List (Event Address)) (h : OpenSockets) (addresses : List Addrinfo)
    (o : ServerOptions)
    → server_process_options opts start ≡ some o
    → system.getaddrinfo own_host query_port (server_hints unspec sock_dgram) ≡ found addresses
    → let fd = chosen system system.binds h addresses in
      main_over system gscrape size opts events h ≡ (
        server_main gscrape size (is_socket fd) opts events >>= λ run. ok (run, with_listener fd h))
unfolding server_main main_over start_server
main_over-server_main system gscrape size opts events h addresses o kept there =
    rw
      (
        main_over,
        kept,
        listen_server-chosen system own_host query_port unspec sock_dgram addresses h (omega arith)
            there,
      )
      refl

-- Started with `-D` and without `-v`, `-h` and `-L`, in whatever order the options stand, and where
-- one of the addresses that `getaddrinfo` gives for `::1` yields a socket that can be bound, the
-- server listens on the first such socket, and holds nothing else in addition; and if its arrays take
-- every packet that comes, it answers each with the fixed answer, once and in order, whatever the
-- plugin does.
pub main_over-dummy :
    {Address : Type 0} (system : System) (gscrape : Bytes → Bytes) (size : ℕ) (opts : List ℕ)
    (events : List (Event Address)) (h : OpenSockets) (addresses : List Addrinfo) (fd : ℕ)
    → is_given b'D' opts ≡ true
    → is_given b'v' opts ≡ false
    → is_given b'h' opts ≡ false
    → is_given b'L' opts ≡ false
    → All (Fits size) events
    → system.getaddrinfo own_host query_port (server_hints unspec sock_dgram) ≡ found addresses
    → chosen system system.binds h addresses ≡ some fd
    → (after : Exchange) × (main_over system gscrape size opts events h
        ≡ ok (running after (replies (λ query. dummy_answer) events), with_listener (some fd) h))
main_over-dummy system gscrape size opts events h addresses fd d v no_h no_l fits there first =
    let (after, run) = server_main-dummy gscrape size opts events d v no_h no_l fits in
    let both =
      main_over-server_main system gscrape size opts events h addresses (set_options opts start)
        (kept_options opts no_h no_l) there in
    (after, both ∙ rw (first, run) refl)
