-- ===== src/Sockets.antt =====
-- The sockets of src/gnugold/oldsrc: connect_client.c, listen_server.c and multicast.c. What the
-- system holds for the program is its state: the descriptors that are open, the lists of addresses
-- that are to be freed, and the sockets that listen.
pub mod Multicast
pub mod Chosen
use gnugol.Base.{
  codes, ℕ, zero, suc, Bool, true, false, Option, none, some, List, [], ◌∷◌, leb, ◌==◌,
  if◌then◌else◌, ℤ, pos, negsuc, is_neg, Bytes, length, Result, ok, fault, overrun, underrun,
  bad_read, ◌>>=◌,
}

-- `AF_INET`, `AF_INET6` and the others.
pub data Family : Type 0 where
  inet inet6 unspec : Family

-- `struct addrinfo`, without the list.
pub record Addrinfo : Type 0 where
  pub family : Family
  pub socktype : ℕ
  pub protocol : ℕ
  pub addr : Bytes

-- `hints`, of which `AI_PASSIVE` is the one flag that is set.
pub record Hints : Type 0 where
  pub passive : Bool
  pub family : Family
  pub socktype : ℕ

pub record OpenSockets : Type 0 where
  pub descriptors : List ℕ
  pub lists : ℕ
  pub listening : List ℕ

-- `getaddrinfo`: its addresses, or its code, which is not 0.
pub data Lookup : Type 0 where
  found : List Addrinfo → Lookup
  failed : ℤ → Lookup

-- The system: what its calls give. `socket` may depend on what is open already.
pub record System : Type 0 where
  pub getaddrinfo : Bytes → Bytes → Hints → Lookup
  pub socket : Addrinfo → List ℕ → Option ℕ
  pub connects : ℕ → Addrinfo → Bool
  pub binds : ℕ → Addrinfo → Bool
  pub getenv : Bytes → Option Bytes

-- `close(fd)`: of what is open. Another descriptor is a fault.
unfoldable pub without : ℕ → List ℕ → Result (List ℕ)
without fd [] = fault underrun
without fd (x ∷ xs) = elim (x == fd) [
  | true ↦ ok xs
  | false ↦ (do rest ← without fd xs; ok (x ∷ rest))
]

unfoldable pub close : ℕ → OpenSockets → Result OpenSockets
close fd h = do left ← without fd h.descriptors; ok (record h { descriptors = left })

abbrev pub with_descriptor : ℕ → OpenSockets → OpenSockets
with_descriptor fd h = record h { descriptors = fd ∷ h.descriptors }

-- `freeaddrinfo`, of a list that is to be freed.
unfoldable pub freed_list : ℕ → OpenSockets → Result OpenSockets
freed_list zero h = fault underrun
freed_list (suc n) h = ok (record h { lists = n })

abbrev pub freeaddrinfo : OpenSockets → Result OpenSockets
freeaddrinfo h = freed_list h.lists h

-- The loop over the addresses, until one is accepted; `accepts` is `connect` or `bind`.
unfoldable pub try_each :
    System → (ℕ → Addrinfo → Bool) → List Addrinfo → OpenSockets → Result (Option ℕ × OpenSockets)
try_each system accepts [] h = ok (none, h)
try_each system accepts (res ∷ more) h = elim (system.socket res h.descriptors) [
  | none ↦ try_each system accepts more h
  | some fd ↦ elim (accepts fd res) [
    | true ↦ ok (some fd, with_descriptor fd h)
    | false ↦ (do closed ← close fd (with_descriptor fd h); try_each system accepts more closed)
  ]
]

abbrev pub got_list : OpenSockets → OpenSockets
got_list h = record h { lists = suc h.lists }

-- After `getaddrinfo`. A code above 0 passes the test `n < 0`, and `res` is read uninitialised.
unfoldable pub connect_to : System → Lookup → OpenSockets → Result (Option ℕ × OpenSockets)
connect_to system (failed code) h = if is_neg code then ok (none, h) else fault bad_read
connect_to system (found addresses) h = do
  tried ← try_each system system.connects addresses (got_list h)
  left ← freeaddrinfo tried.1
  ok (tried.0, left)

-- `connect_client(hostname,service,family,socktype)`
abbrev pub client_hints : Family → ℕ → Hints
client_hints f t = record { passive = false; family = f; socktype = t }

unfoldable pub connect_client :
    System → Bytes → Bytes → Family → ℕ → OpenSockets → Result (Option ℕ × OpenSockets)
connect_client system hostname service f t h =
    connect_to system (system.getaddrinfo hostname service (client_hints f t)) h

-- `host[1024]`, without `DUMMY_SERVER`: without a name in the environment it is read uninitialised.
unfoldable pub host_name : System → Option Bytes → Result Bytes
host_name system (some hostname) = if leb 1024 (length hostname) then fault overrun else ok hostname
host_name system none = elim (system.getenv (codes "GNUGOL_SERVER")) [
  | none ↦ fault bad_read
  | some h ↦ if leb 1024 (length h) then fault overrun else ok h
]

-- `listen` and the end of `listen_server`.
abbrev pub listening_on : Option ℕ → OpenSockets → OpenSockets
listening_on none h = h
listening_on (some fd) h = record h { listening = fd ∷ h.listening }

unfoldable pub listen_to : System → Lookup → OpenSockets → Result (Option ℕ × OpenSockets)
listen_to system (failed code) h = if is_neg code then ok (none, h) else fault bad_read
listen_to system (found addresses) h = do
  tried ← try_each system system.binds addresses (got_list h)
  left ← freeaddrinfo (listening_on tried.0 tried.1)
  ok (tried.0, left)

-- `listen_server(hostname,service,family,socktype)`
abbrev pub server_hints : Family → ℕ → Hints
server_hints f t = record { passive = true; family = f; socktype = t }

unfoldable pub listen_server :
    System → Option Bytes → Bytes → Family → ℕ → OpenSockets → Result (Option ℕ × OpenSockets)
listen_server system hostname service f t h = do
  host ← host_name system hostname
  listen_to system (system.getaddrinfo host service (server_hints f t)) h

-- `QUERY_PORT` and `SOCK_DGRAM`
abbrev pub query_port : Bytes
query_port = codes "3301"

abbrev pub sock_dgram : ℕ
sock_dgram = 2

-- `!(sockfd < 0)`
abbrev pub is_socket : Option ℕ → Bool
is_socket none = false
is_socket (some fd) = true
