-- ===== src/Net/Laws.antt =====
-- Mapped and plain IPv4 addresses are one peer.
use sni_router.Prelude.{
  ℕ, ◌/◌, ◌%◌, ◌^◌, ◌<◌, ◌≡◌, ◌↔◌, refl, true, nat_eq, Bool-cases, inl, inr, arith,
}
use sni_router.Prelude.Equality.{Key}
use sni_router.Prelude.Outcomes.{Outcome, ok, err}
use sni_router.Net.{
  SendError, SocketAddr, v4, v6, to_ipv6_mapped, peer_ip_v6, normalize_socket_addr, addr_eq,
  socket_addrs_equal, send_addr_for_socket,
}

pub addr_eq_iff : (a b : SocketAddr) → (addr_eq a b ≡ true) ↔ (a ≡ b)
unfolding addr_eq
addr_eq_iff (v4 a p) (v4 b q) = ground arith
addr_eq_iff (v6 a p f s) (v6 b q g t) = ground arith
addr_eq_iff _ _ = ground arith

instance abbrev pub addr_Key : Key SocketAddr
addr_Key = record { eq = addr_eq; eq_iff = addr_eq_iff }

pub normalize_idem :
    (a : SocketAddr) → normalize_socket_addr (normalize_socket_addr a) ≡ normalize_socket_addr a
unfolding normalize_socket_addr
normalize_idem (v4 ip port) = refl
normalize_idem (v6 ip port flow scope) = ground arith

-- Two addresses that count as one peer have the same address for the ACLs.
pub socket_addrs_equal-peer_ip_v6 :
    (a b : SocketAddr) → socket_addrs_equal a b ≡ true → peer_ip_v6 a ≡ peer_ip_v6 b
unfolding socket_addrs_equal peer_ip_v6
socket_addrs_equal-peer_ip_v6 (v4 a p) (v4 b q) h = ground arith
socket_addrs_equal-peer_ip_v6 (v4 a p) (v6 b q g t) h = ground arith
socket_addrs_equal-peer_ip_v6 (v6 a p f s) (v4 b q) h = ground arith
socket_addrs_equal-peer_ip_v6 (v6 a p f s) (v6 b q g t) h = ground arith

-- An IPv4 address is below 2 ^ 32.
unfoldable pub IsAddr : SocketAddr → Type 0
IsAddr (v4 ip port) = ip < 2 ^ 32
IsAddr (v6 ip port flow scope) = ip < 2 ^ 128

mapped-div : (ip : ℕ) → ip < 2 ^ 32 → to_ipv6_mapped ip / 2 ^ 32 ≡ 0xffff
mapped-div ip h = omega arith

mapped-mod : (ip : ℕ) → ip < 2 ^ 32 → to_ipv6_mapped ip % 2 ^ 32 ≡ ip
mapped-mod ip h = omega arith

abbrev pub IsV4 : SocketAddr → Type 0
IsV4 (v4 ip port) = Unit {0}
IsV4 (v6 ip port flow scope) = ⊥

abbrev pub IsV6 : SocketAddr → Type 0
IsV6 (v4 ip port) = ⊥
IsV6 (v6 ip port flow scope) = Unit {0}

-- What a socket, by its own address, may make of an address.
abbrev pub Rewritten : SocketAddr → SocketAddr → Outcome SendError SocketAddr → Type 0
Rewritten (v6 _ _ _ _) addr (ok out) =
    (normalize_socket_addr out ≡ normalize_socket_addr addr) × IsV6 out
Rewritten (v4 _ _) addr (ok out) =
    (normalize_socket_addr out ≡ normalize_socket_addr addr) × IsV4 (normalize_socket_addr out)
Rewritten (v4 _ _) addr (err e) = IsV6 (normalize_socket_addr addr)
Rewritten _ addr _ = ⊥

-- Rewriting an address of 32 or 128 bits for the listening socket keeps the peer, both addresses normalising to one,
-- and suits the socket: an IPv6 socket gets an IPv6 address, and an IPv4 socket one that is IPv4, mapped or not. It
-- fails only on an IPv4 socket, and only where the peer has no IPv4 address.
pub send_addr_for_socket-peer :
    (socket addr : SocketAddr)
    → IsAddr addr
    → Rewritten socket addr (send_addr_for_socket socket addr)
unfolding send_addr_for_socket normalize_socket_addr IsAddr
send_addr_for_socket-peer (v6 _ _ _ _) (v4 ip port) h =
    (ground (arith, mapped-div ip h, mapped-mod ip h), tt)
send_addr_for_socket-peer (v4 _ _) (v6 ip port flow scope) h =
    elim (Bool-cases (nat_eq (ip / 2 ^ 32) 0xffff)) [
      | inl e ↦ rw (e, e) (refl, tt)
      | inr e ↦ rw (e, e) tt
    ]
send_addr_for_socket-peer (v4 _ _) (v4 ip port) h = (refl, tt)
send_addr_for_socket-peer (v6 _ _ _ _) (v6 ip port flow scope) h = (refl, tt)
