-- ===== src/Sockets/Multicast/Joined.antt =====
-- At which level a group is joined.
use gnugol.Base.{
  ℕ, ◌≡◌, refl, Bool, true, false, Option, none, some, List, [], ◌∷◌, ◌++◌, ℤ, pos, negsuc, Bytes,
  ok, Bool-cases, inl, inr, if◌then◌else◌,
}
use gnugol.Sockets.Multicast.{
  Level, ip, ipv6, Request, bind_to, receive_buffer, join_group, join_source_group, Kernel,
  required, index_of, ggol_join_ip_asm, ssm_level, ggol_join_ip_ssm, join, multicast_setup_listen,
  rcvbuf,
}
use gnugol.Sockets.{Addrinfo, Family, inet, inet6, unspec}

-- The level at which the addresses of a family are handled.
abbrev pub group_level : Family → Level
group_level inet6 = ipv6
group_level inet = ip
group_level unspec = ip

-- The requests of a listener: where the family is known, it is bound and joined at a level.
abbrev pub requests : Level → ℕ → Bytes → List Request
requests level index addr = bind_to addr ∷ receive_buffer rcvbuf ∷ join_group level index addr ∷ []

-- The requests that a listener for one source makes.
abbrev pub source_requests : Level → ℕ → Bytes → Bytes → List Request
source_requests level index addr source =
    bind_to addr ∷ receive_buffer rcvbuf ∷ join_source_group level index addr source ∷ []

abbrev pub code_of : Bool → ℤ
code_of allowed = if allowed then pos 0 else negsuc 0

required-code_of :
    (kernel : Kernel) (request : Request) (calls : List Request)
    → required kernel request calls
      ≡ ok (code_of (kernel.allows calls request), calls ++ request ∷ [])
unfolding required
required-code_of kernel request calls = elim (Bool-cases (kernel.allows calls request)) [
  | inl allowed ↦ rw allowed refl
  | inr refused ↦ rw refused refl
]

abbrev pub is_known : Family → Bool
is_known inet6 = true
is_known inet = true
is_known unspec = false

join_any :
    (kernel : Kernel) (family : Family) (group : Addrinfo) (iface : Option Bytes)
    (calls : List Request)
    → group.family ≡ family
    → is_known family ≡ true
    → let request = join_group (group_level family) (index_of kernel iface) group.addr in
      join kernel group none iface calls
      ≡ ok (code_of (kernel.allows calls request), calls ++ request ∷ [])
unfolding join ggol_join_ip_asm
join_any kernel inet6 group iface calls h known =
    rw h (required-code_of kernel (join_group ipv6 (index_of kernel iface) group.addr) calls)
join_any kernel inet group iface calls h known =
    rw h (required-code_of kernel (join_group ip (index_of kernel iface) group.addr) calls)
join_any kernel unspec group iface calls h known = cc

join_source :
    (kernel : Kernel) (family : Family) (group source : Addrinfo) (iface : Option Bytes)
    (calls : List Request)
    → group.family ≡ family
    → is_known family ≡ true
    → let request = join_source_group ip (index_of kernel iface) group.addr source.addr in
      join kernel group (some source) iface calls
      ≡ ok (code_of (kernel.allows calls request), calls ++ request ∷ [])
unfolding join ggol_join_ip_ssm ssm_level
join_source kernel inet6 group source iface calls h known = rw h (
    required-code_of kernel (join_source_group ip (index_of kernel iface) group.addr source.addr)
      calls)
join_source kernel inet group source iface calls h known = rw h (
    required-code_of kernel (join_source_group ip (index_of kernel iface) group.addr source.addr)
      calls)
join_source kernel unspec group source iface calls h known = cc

-- For a group of IPv4 or IPv6 whose address can be bound, `multicast_setup_listen` binds it, sets
-- the receive buffer and asks for one join, whose answer decides its result. Without a source the
-- join is at the level of the group's family; with a source it is at `IPPROTO_IP`, also for a group
-- of IPv6.
pub multicast_setup_listen-requests :
    (kernel : Kernel) (group source : Addrinfo) (iface : Option Bytes)
    → is_known group.family ≡ true
    → kernel.allows [] (bind_to group.addr) ≡ true
    → let index = index_of kernel iface in
      let before = bind_to group.addr ∷ receive_buffer rcvbuf ∷ [] in
      let level = group_level group.family in
      (multicast_setup_listen kernel group none iface []
        ≡ ok (
          code_of (kernel.allows before (join_group level index group.addr)),
          requests level index group.addr,
        ))
      × (multicast_setup_listen kernel group (some source) iface []
          ≡ ok (
            code_of (kernel.allows before (join_source_group ip index group.addr source.addr)),
            source_requests ip index group.addr source.addr,
          ))
unfolding multicast_setup_listen
multicast_setup_listen-requests kernel group source iface known bound =
    let before : List Request = bind_to group.addr ∷ receive_buffer rcvbuf ∷ [] in
    (
      rw bound (join_any kernel group.family group iface before refl known),
      rw bound (join_source kernel group.family group source iface before refl known),
    )
