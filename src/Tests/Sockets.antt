-- ===== src/Tests/Sockets.antt =====
-- The sockets of src/gnugold/oldsrc at concrete inputs.
use gnugol.Base.{
  ℕ, ◌≡◌, refl, Bool, true, false, none, some, List, [], ◌∷◌, ◌==◌, pos, Bytes, codes, ok, ◌>>=◌,
  arith, if◌then◌else◌,
}
use gnugol.Udp.Connected.{Wire, network_of, query_connected, query_connected-query_main}
use gnugol.Udp.{query_main}
use gnugol.Tests.Server.{undefined}
use gnugol.Answer.{QueryData}
use gnugol.Query.{zeroed}
use gnugol.Sockets.Chosen.{attempt, first_some, chosen, with_socket, with_listener, sockets-chosen}
use gnugol.Sockets.Multicast.Joined.{requests, source_requests, multicast_setup_listen-requests}
use gnugol.Sockets.Multicast.{ip, ipv6, Kernel, index_of, multicast_setup_listen}
use gnugol.Sockets.{
  Family, Addrinfo, inet, inet6, unspec, OpenSockets, found, System, connect_client, listen_server,
}

abbrev address : Family → ℕ → Addrinfo
address family last = record { family = family; socktype = 2; protocol = 17; addr = last ∷ [] }

abbrev last_is_two : Bytes → Bool
last_is_two [] = false
last_is_two (c ∷ cs) = c == 2

abbrev pub addresses : List Addrinfo
addresses = address inet6 1 ∷ address inet 2 ∷ []

abbrev pub system : System
system = record {
  getaddrinfo = λ host service hints. found addresses;
  socket = λ res descriptors. some 7;
  connects = λ fd res. last_is_two res.addr;
  binds = λ fd res. true;
  getenv = λ name. none;
}

abbrev pub held : OpenSockets
held = record { descriptors = 3 ∷ []; lists = 0; listening = [] }

sockets-chosen_example :
    (connect_client system (codes "::1") (codes "3301") unspec 2 held
      ≡ ok (
        chosen system system.connects held addresses,
        with_socket (chosen system system.connects held addresses) held,
      ))
    × (listen_server system (some (codes "::1")) (codes "3301") unspec 2 held
        ≡ ok (
          chosen system system.binds held addresses,
          with_listener (chosen system system.binds held addresses) held,
        ))
sockets-chosen_example =
    sockets-chosen system (codes "::1") (codes "3301") unspec 2 addresses addresses held
      (omega arith) refl refl

second_is_chosen : chosen system system.connects held addresses ≡ some 7
unfolding attempt first_some
second_is_chosen = refl

abbrev kernel : Kernel
kernel = record { allows = λ before request. true; if_nametoindex = λ name. 2 }

multicast_setup_listen-requests_example :
    (multicast_setup_listen kernel (address inet6 1) none (some (codes "eth0")) []
      ≡ ok (pos 0, requests ipv6 (index_of kernel (some (codes "eth0"))) (1 ∷ [])))
    × (multicast_setup_listen kernel
          (address inet6 1)
          (some (address inet6 2))
          (some (codes "eth0"))
          []
        ≡ ok (pos 0, source_requests ip (index_of kernel (some (codes "eth0"))) (1 ∷ []) (2 ∷ [])))
multicast_setup_listen-requests_example =
    multicast_setup_listen-requests kernel (address inet6 1) (address inet6 2) (some (codes "eth0"))
      refl refl

abbrev asked : QueryData
asked = record {
  options = record zeroed { urls = true; nresults = pos 10 };
  keywords = codes "gnu";
  query = [];
  links = [];
  snippets = [];
  titles = [];
}

abbrev echo : Wire
echo fd query = if fd == 7 then some (codes "LNK\nhttp://a\nEND\n") else none

query_connected-query_main_example : query_connected system echo undefined 4096 none asked held ≡ (
    query_main
      (network_of echo (chosen system system.connects held addresses))
      undefined
      4096
      none
      asked
    >>= λ out. ok (out, held))
query_connected-query_main_example =
    query_connected-query_main system echo undefined 4096 none asked addresses held refl
