-- ===== src/Sockets/Chosen.antt =====
-- Which socket is returned, and what is held then.
use gnugol.Base.{
  ◌<◌, ℕ, ◌≡◌, refl, Bool, true, false, Option, none, some, List, [], ◌∷◌, map, leb, ◌==◌,
  if◌then◌else◌, Bytes, length, ok, arith, Bool-cases, Option-cases, inl, inr,
}
use gnugol.Sockets.{
  Addrinfo, Family, client_hints, server_hints, OpenSockets, found, System, without, close,
  with_descriptor, freed_list, try_each, connect_to, connect_client, got_list, freeaddrinfo,
  host_name, listening_on, listen_to, listen_server,
}

-- What an address gives on its own: its socket, if there is one and it is accepted.
unfoldable pub attempt : System → (ℕ → Addrinfo → Bool) → List ℕ → Addrinfo → Option ℕ
attempt system accepts descriptors res = elim (system.socket res descriptors) [
  | none ↦ none
  | some fd ↦ if accepts fd res then some fd else none
]

unfoldable pub first_some : List (Option ℕ) → Option ℕ
first_some [] = none
first_some (none ∷ rest) = first_some rest
first_some (some fd ∷ rest) = some fd

-- The socket that is chosen.
abbrev pub chosen : System → (ℕ → Addrinfo → Bool) → OpenSockets → List Addrinfo → Option ℕ
chosen system accepts h addresses =
    first_some (map (attempt system accepts h.descriptors) addresses)

-- Nothing but the chosen socket is held in addition.
abbrev pub with_socket : Option ℕ → OpenSockets → OpenSockets
with_socket none h = h
with_socket (some fd) h = with_descriptor fd h

pub close-with_descriptor : (fd : ℕ) (h : OpenSockets) → close fd (with_descriptor fd h) ≡ ok h
unfolding close without
close-with_descriptor fd h =
    let same : (fd == fd) ≡ true = ground arith in
    let left : without fd (fd ∷ h.descriptors) ≡ ok h.descriptors = rw (without, same) refl in
    rw (close, left) refl

try_each-chosen :
    (system : System) (accepts : ℕ → Addrinfo → Bool) (addresses : List Addrinfo) (h : OpenSockets)
    → try_each system accepts addresses h
      ≡ ok (chosen system accepts h addresses, with_socket (chosen system accepts h addresses) h)
unfolding try_each attempt first_some
try_each-chosen system accepts [] h = refl
try_each-chosen system accepts (res ∷ more) h =
    elim (Option-cases (system.socket res h.descriptors)) [
      | inl none_free ↦ rw (try_each, attempt, none_free) (try_each-chosen system accepts more h)
      | inr (fd, free) ↦
          rw (try_each, attempt, free)
            (elim (Bool-cases (accepts fd res)) [
              | inl accepted ↦ rw accepted refl
              | inr refused ↦
                  rw (refused, close-with_descriptor fd h) (try_each-chosen system accepts more h)
            ])
    ]

-- The list is freed again, and the socket kept.
freed-with_socket :
    (o : Option ℕ) (h : OpenSockets)
    → freeaddrinfo (with_socket o (got_list h)) ≡ ok (with_socket o h)
unfolding freed_list
freed-with_socket none h = refl
freed-with_socket (some fd) h = refl

-- A socket that listens is kept as one.
abbrev pub with_listener : Option ℕ → OpenSockets → OpenSockets
with_listener o h = listening_on o (with_socket o h)

freed-with_listener :
    (o : Option ℕ) (h : OpenSockets)
    → freeaddrinfo (with_listener o (got_list h)) ≡ ok (with_listener o h)
unfolding freed_list
freed-with_listener none h = refl
freed-with_listener (some fd) h = refl

pub connect_to-chosen :
    (system : System) (addresses : List Addrinfo) (h : OpenSockets)
    → let fd = chosen system system.connects h addresses in
      connect_to system (found addresses) h ≡ ok (fd, with_socket fd h)
unfolding connect_to
connect_to-chosen system addresses h =
    rw
      (
        try_each-chosen system system.connects addresses (got_list h),
        freed-with_socket (chosen system system.connects h addresses) h,
      )
      refl

listen_to-chosen :
    (system : System) (addresses : List Addrinfo) (h : OpenSockets)
    → let fd = chosen system system.binds h addresses in
      listen_to system (found addresses) h ≡ ok (fd, with_listener fd h)
unfolding listen_to
listen_to-chosen system addresses h =
    rw
      (
        try_each-chosen system system.binds addresses (got_list h),
        freed-with_listener (chosen system system.binds h addresses) h,
      )
      refl

host_name_given :
    (system : System) (hostname : Bytes)
    → length hostname < 1024
    → host_name system (some hostname) ≡ ok hostname
unfolding host_name
host_name_given system hostname short =
    let room : leb 1024 (length hostname) ≡ false = ground arith in rw room refl

pub listen_server-chosen :
    (system : System) (hostname service : Bytes) (f : Family) (t : ℕ) (addresses : List Addrinfo)
    (h : OpenSockets)
    → length hostname < 1024
    → system.getaddrinfo hostname service (server_hints f t) ≡ found addresses
    → let fd = chosen system system.binds h addresses in
      listen_server system (some hostname) service f t h ≡ ok (fd, with_listener fd h)
unfolding listen_server
listen_server-chosen system hostname service f t addresses h short there =
    rw (host_name_given system hostname short, there) (listen_to-chosen system addresses h)

-- Where the name of the host is shorter than 1024 bytes and `getaddrinfo` gives addresses for it,
-- with the flag `AI_PASSIVE` for `listen_server` and without it for `connect_client`,
-- `connect_client` and `listen_server` return the socket of the first address that yields one and
-- is connected or bound, or none if no address is; the sockets tried before are closed and the list
-- is freed, so that nothing but the socket returned is held in addition, and `listen_server`
-- listens on it.
pub sockets-chosen :
    (system : System) (hostname service : Bytes) (f : Family) (t : ℕ)
    (connecting binding : List Addrinfo) (h : OpenSockets)
    → length hostname < 1024
    → system.getaddrinfo hostname service (client_hints f t) ≡ found connecting
    → system.getaddrinfo hostname service (server_hints f t) ≡ found binding
    → let client = chosen system system.connects h connecting in
      let server = chosen system system.binds h binding in
      (connect_client system hostname service f t h ≡ ok (client, with_socket client h))
      × (listen_server system (some hostname) service f t h ≡ ok (server, with_listener server h))
unfolding connect_client
sockets-chosen system hostname service f t connecting binding h short there passively = (
  rw there (connect_to-chosen system connecting h),
  listen_server-chosen system hostname service f t binding h short passively,
)
