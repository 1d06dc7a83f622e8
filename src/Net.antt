-- ===== src/Net.antt =====
-- Socket addresses of the standard library, as the two routers compare them: `peer_ip_v6`,
-- `normalize_socket_addr`, `socket_addrs_equal` and `send_addr_for_socket` of src/bin/sni-router-h3.rs.
-- An IPv4 address is a number below 2 ^ 32, an IPv6 address one below 2 ^ 128.
pub mod Laws
pub mod HostPort
use sni_router.Prelude.{
  ℕ, ◌+◌, ◌*◌, ◌/◌, ◌%◌, ◌^◌, Bool, true, false, ◌&&◌, Option, none, some, nat_eq, if◌then◌else◌,
}
use sni_router.Prelude.Outcomes.{Outcome, ok, err}

pub data SocketAddr : Type 0 where
  -- address and port
  v4 : ℕ → ℕ → SocketAddr
  -- address, port, flow information and scope
  v6 : ℕ → ℕ → ℕ → ℕ → SocketAddr

-- `Ipv4Addr::to_ipv6_mapped`: ::ffff:a.b.c.d
abbrev pub to_ipv6_mapped : ℕ → ℕ
to_ipv6_mapped ip = 0xffff * 2 ^ 32 + ip

-- `Ipv6Addr::to_ipv4_mapped`
abbrev pub to_ipv4_mapped : ℕ → Option ℕ
to_ipv4_mapped ip = if nat_eq (ip / 2 ^ 32) 0xffff then some (ip % 2 ^ 32) else none

unfoldable pub peer_ip_v6 : SocketAddr → ℕ
peer_ip_v6 (v4 ip port) = to_ipv6_mapped ip
peer_ip_v6 (v6 ip port flow scope) = ip

abbrev or_v6 : SocketAddr → ℕ → Option ℕ → SocketAddr
or_v6 addr port none = addr
or_v6 addr port (some ip) = v4 ip port

unfoldable pub normalize_socket_addr : SocketAddr → SocketAddr
normalize_socket_addr (v4 ip port) = v4 ip port
normalize_socket_addr (v6 ip port flow scope) =
    or_v6 (v6 ip port flow scope) port (to_ipv4_mapped ip)

-- The derived `==` of `SocketAddr`.
unfoldable pub addr_eq : SocketAddr → SocketAddr → Bool
addr_eq (v4 a p) (v4 b q) = nat_eq a b && nat_eq p q
addr_eq (v6 a p f s) (v6 b q g t) = nat_eq a b && nat_eq p q && nat_eq f g && nat_eq s t
addr_eq _ _ = false

unfoldable pub socket_addrs_equal : SocketAddr → SocketAddr → Bool
unfolding addr_eq normalize_socket_addr
socket_addrs_equal left right = addr_eq (normalize_socket_addr left) (normalize_socket_addr right)

pub data SendError : Type 0 where
  ipv6_from_ipv4 : SendError

abbrev refuse_unmapped : SocketAddr → Option ℕ → Outcome SendError SocketAddr
refuse_unmapped addr none = err ipv6_from_ipv4
refuse_unmapped addr (some _) = ok addr

-- From the socket's own address, which `local_addr` returned.
unfoldable pub send_addr_for_socket : SocketAddr → SocketAddr → Outcome SendError SocketAddr
send_addr_for_socket (v6 _ _ _ _) (v4 ip port) = ok (v6 (to_ipv6_mapped ip) port 0 0)
send_addr_for_socket (v4 _ _) (v6 ip port flow scope) =
    refuse_unmapped (v6 ip port flow scope) (to_ipv4_mapped ip)
send_addr_for_socket (v4 _ _) (v4 ip port) = ok (v4 ip port)
send_addr_for_socket (v6 _ _ _ _) (v6 ip port flow scope) = ok (v6 ip port flow scope)
