-- ===== src/Sockets/Multicast.antt =====
-- src/gnugold/oldsrc/multicast.c, where the system has `MCAST_JOIN_GROUP` and
-- `MCAST_JOIN_SOURCE_GROUP` and is not Windows. The requests to the kernel are recorded in order.
pub mod Joined
use gnugol.Base.{
  ℕ, ◌*◌, ◌^◌, Bool, true, false, Option, none, some, List, [], ◌∷◌, ◌++◌, if◌then◌else◌, ℤ, pos,
  negsuc, Bytes, Result, ok, fault, bad_read, ◌>>=◌,
}
use gnugol.Sockets.{Addrinfo, Family, inet, inet6, unspec}

-- `IPPROTO_IP` and `IPPROTO_IPV6`
pub data Level : Type 0 where
  ip ipv6 : Level

pub data Request : Type 0 where
  bind_to : Bytes → Request
  receive_buffer : ℕ → Request
  join_group : Level → ℕ → Bytes → Request
  join_source_group : Level → ℕ → Bytes → Bytes → Request
  multicast_ttl : Level → ℕ → Request

-- What the kernel does with a request, after those before, and the index of an interface, which is 0
-- for one that is unknown.
pub record Kernel : Type 0 where
  pub allows : List Request → Request → Bool
  pub if_nametoindex : Bytes → ℕ

-- What a function returns, and the requests so far.
abbrev pub Traced : Type 0
Traced = Result (ℤ × List Request)

abbrev pub and_then : List Request → Request → List Request
and_then calls request = calls ++ request ∷ []

-- A request whose refusal returns -1.
unfoldable pub required : Kernel → Request → List Request → Traced
required kernel request calls =
    if kernel.allows calls request
    then ok (pos 0, and_then calls request)
    else ok (negsuc 0, and_then calls request)

unfoldable pub index_of : Kernel → Option Bytes → ℕ
index_of kernel none = 0
index_of kernel (some iface) = kernel.if_nametoindex iface

-- `ggol_join_ip_asm`
unfoldable pub ggol_join_ip_asm : Kernel → Addrinfo → Option Bytes → List Request → Traced
unfolding required index_of
ggol_join_ip_asm kernel group iface calls = elim group.family [
  | inet6 ↦ required kernel (join_group ipv6 (index_of kernel iface) group.addr) calls
  | inet ↦ required kernel (join_group ip (index_of kernel iface) group.addr) calls
  | unspec ↦ ok (negsuc 0, calls)
]

-- The `switch` of `ggol_join_ip_ssm`, whose cases fall through: `IPPROTO_IPV6` is overwritten, and
-- for another family `ip_proto` is read uninitialised.
unfoldable pub ssm_level : Family → Result Level
ssm_level inet6 = ok ip
ssm_level inet = ok ip
ssm_level unspec = fault bad_read

-- `ggol_join_ip_ssm`
unfoldable pub ggol_join_ip_ssm :
    Kernel → Addrinfo → Addrinfo → Option Bytes → List Request → Traced
unfolding required index_of ssm_level
ggol_join_ip_ssm kernel group source iface calls = do
  level ← ssm_level group.family
  required kernel (join_source_group level (index_of kernel iface) group.addr source.addr) calls

-- The join at the end of `multicast_setup_listen`.
unfoldable pub join : Kernel → Addrinfo → Option Addrinfo → Option Bytes → List Request → Traced
unfolding ggol_join_ip_asm ggol_join_ip_ssm
join kernel group (some source) iface calls = elim group.family [
  | inet6 ↦ ggol_join_ip_ssm kernel group source iface calls
  | inet ↦ ggol_join_ip_ssm kernel group source iface calls
  | unspec ↦ ok (negsuc 0, calls)
]
join kernel group none iface calls = elim group.family [
  | inet6 ↦ ggol_join_ip_asm kernel group iface calls
  | inet ↦ ggol_join_ip_asm kernel group iface calls
  | unspec ↦ ok (negsuc 0, calls)
]

-- `rcvbuf = 1 << 13`
abbrev pub rcvbuf : ℕ
rcvbuf = 2 ^ 13

-- `multicast_setup_listen`
unfoldable pub multicast_setup_listen :
    Kernel → Addrinfo → Option Addrinfo → Option Bytes → List Request → Traced
unfolding join
multicast_setup_listen kernel group source iface calls =
    let bound = and_then calls (bind_to group.addr) in
    if kernel.allows calls (bind_to group.addr)
    then join kernel group source iface (and_then bound (receive_buffer rcvbuf))
    else ok (negsuc 0, bound)

-- The end of `multicast_setup_send`: a refusal only warns.
unfoldable pub limit_hops : Family → List Request → List Request
limit_hops inet calls = and_then calls (multicast_ttl ip 2)
limit_hops inet6 calls = and_then calls (multicast_ttl ipv6 2)
limit_hops unspec calls = calls

-- `multicast_setup_send`
unfoldable pub multicast_setup_send : Kernel → Addrinfo → Option Addrinfo → List Request → Traced
unfolding limit_hops
multicast_setup_send kernel group none calls = ok (pos 0, limit_hops group.family calls)
multicast_setup_send kernel group (some source) calls =
    if kernel.allows calls (bind_to source.addr)
    then ok (pos 0, limit_hops group.family (and_then calls (bind_to source.addr)))
    else ok (negsuc 0, and_then calls (bind_to source.addr))
