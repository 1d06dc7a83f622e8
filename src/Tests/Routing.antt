-- ===== src/Tests/Routing.antt =====
-- Runs of the connection-ID index, of the addresses and of the rules.
use sni_router.Prelude.{
  ℕ, ◌+◌, ◌*◌, ◌^◌, ◌≤◌, ◌<◌, ◌≡◌, ◌≢◌, refl, Bool, true, false, inl, inr, List, [], ◌∷◌, ◌++◌,
  Option, none, some, nat_eq, leb, length, arith, if◌then◌else◌,
}
use sni_router.Prelude.Equality.{bytes_eq}
use sni_router.Prelude.Outcomes.{ok, err, Post}
use sni_router.CidRoutes.{CidRoutes, insert, get, remove, match_prefix}
use sni_router.CidRoutes.Laws.{owner_or, get-insert, get-remove}
use sni_router.CidRoutes.Shape.{IsValid}
use sni_router.CidRoutes.Longest.{longest_owner, match_prefix-longest_owner}
use sni_router.Net.{SocketAddr, v4, v6, peer_ip_v6, send_addr_for_socket, ipv6_from_ipv4}
use sni_router.Net.Laws.{IsAddr, Rewritten, send_addr_for_socket-peer}
use sni_router.Routing.{accept, continue, Acl, Rule, Config, acl_action}
use sni_router.Routing.Http3.{udp, route_for_sni}
use sni_router.Routing.Tcp.{Choice, choose_for_sni}
use sni_router.Routing.Deciding.{
  both, none_left, Allowed, by_rule, choose_for_sni-Post, choose_for_sni-Allowed,
}
use sni_router.Routing.Agreement.{map_config, backend_of, closing, route_for_sni-choose_for_sni}

-- Connection 4 owns a connection ID of one byte, connection 6 a longer one with that prefix.
abbrev sample_routes : CidRoutes
sample_routes = record { by_length = (1, (7 ∷ [], 4) ∷ []) ∷ (2, (7 ∷ 8 ∷ [], 6) ∷ []) ∷ [] }

sample_routes-IsValid : IsValid sample_routes
sample_routes-IsValid = record {
  ascending = (omega arith, (omega arith, tt));
  tables = (λ e. cc, (refl, tt), (λ e. cc, (refl, tt), tt));
}

match_prefix-runs : match_prefix sample_routes (7 ∷ 8 ∷ 9 ∷ []) ≡ some 6
unfolding match_prefix sni_router.Prelude.Maps.get bytes_eq
match_prefix-runs = refl

match_prefix-longest_owner_example :
    match_prefix sample_routes (7 ∷ 8 ∷ 9 ∷ []) ≡ longest_owner sample_routes (7 ∷ 8 ∷ 9 ∷ []) 3
match_prefix-longest_owner_example =
    match_prefix-longest_owner sample_routes (7 ∷ 8 ∷ 9 ∷ []) sample_routes-IsValid

get-insert_example :
    (get (insert sample_routes (7 ∷ []) 6).0 (7 ∷ []) ≡ (
      if bytes_eq (7 ∷ []) (7 ∷ [])
      then some (owner_or 6 (get sample_routes (7 ∷ [])))
      else get sample_routes (7 ∷ [])))
    × ((insert sample_routes (7 ∷ []) 6).1 ≡ nat_eq (owner_or 6 (get sample_routes (7 ∷ []))) 6)
get-insert_example = get-insert sample_routes 7 [] 6 (7 ∷ [])

get-remove_example :
    (get (remove sample_routes (7 ∷ [])).0 (7 ∷ 8 ∷ [])
      ≡ (if bytes_eq (7 ∷ []) (7 ∷ 8 ∷ []) then none else get sample_routes (7 ∷ 8 ∷ [])))
    × ((remove sample_routes (7 ∷ [])).1 ≡ get sample_routes (7 ∷ []))
get-remove_example = get-remove sample_routes (7 ∷ []) (7 ∷ 8 ∷ []) sample_routes-IsValid

-- 192.0.2.1, mapped to IPv6 and plain.
abbrev mapped_addr : SocketAddr
mapped_addr = v6 (0xffff * 2 ^ 32 + 0xc0000201) 443 0 0

abbrev plain_addr : SocketAddr
plain_addr = v4 0xc0000201 443

send_addr_for_socket-unmapped : send_addr_for_socket plain_addr (v6 1 443 0 0) ≡ err ipv6_from_ipv4
unfolding send_addr_for_socket
send_addr_for_socket-unmapped = refl

send_addr_for_socket-peer_example :
    Rewritten mapped_addr plain_addr (send_addr_for_socket mapped_addr plain_addr)
send_addr_for_socket-peer_example =
    send_addr_for_socket-peer mapped_addr plain_addr (unfold IsAddr in omega arith)

-- A pattern matches the name of its own number, a network has the peers up to its number.
abbrev accept_low : Acl ℕ
accept_low = record {
  rules = record { source = 100; action = accept } ∷ [];
  default_action = continue;
}

abbrev sample_rule : ℕ → ℕ → Rule ℕ ℕ ℕ
sample_rule name backend = record {
  re = name;
  backend = backend;
  acl = accept_low;
  timeout = some 5;
}

abbrev sample_config : Config ℕ ℕ ℕ
sample_config = record {
  max_lifetime = some 3;
  handshake_timeout = none;
  rules = sample_rule 1 10 ∷ sample_rule 2 20 ∷ sample_rule 2 30 ∷ [];
  default = sample_rule 0 40;
}

abbrev sample_choice : Choice ℕ ℕ
sample_choice = record { sni = some 2; backend = 20; timeout = some 5 }

sample_choice-Allowed :
    Allowed nat_eq
      (λ net peer. leb peer net)
      sample_config
      7
      (sample_rule 1 10 ∷ sample_rule 2 20 ∷ sample_rule 2 30 ∷ [])
      2
      sample_choice
unfolding acl_action
sample_choice-Allowed =
    by_rule (sample_rule 1 10 ∷ []) (sample_rule 2 30 ∷ []) (sample_rule 2 20) refl
      (both (inl refl) none_left) refl refl

choose_for_sni-Allowed_example :
    choose_for_sni nat_eq (λ net peer. leb peer net) sample_config 7 (some 2) ≡ ok sample_choice
choose_for_sni-Allowed_example =
    choose_for_sni-Allowed nat_eq (λ net peer. leb peer net) sample_config 7 2 sample_choice
      sample_choice-Allowed

choose_for_sni-Post_example :
    Post
      (Allowed nat_eq
        (λ net peer. leb peer net)
        sample_config
        7
        (sample_rule 1 10 ∷ sample_rule 2 20 ∷ sample_rule 2 30 ∷ [])
        2)
      (choose_for_sni nat_eq (λ net peer. leb peer net) sample_config 7 (some 2))
choose_for_sni-Post_example =
    choose_for_sni-Post nat_eq (λ net peer. leb peer net) sample_config 7 2

route_for_sni-choose_for_sni_example :
    backend_of (
      route_for_sni nat_eq
        (λ net peer. leb peer net)
        (map_config (λ port. udp (v4 1 port)) sample_config)
        plain_addr
        (some 2))
    ≡ closing
        (λ port. udp (v4 1 port))
        (choose_for_sni nat_eq
          (λ net peer. leb peer net)
          sample_config
          (peer_ip_v6 plain_addr)
          (some 2))
route_for_sni-choose_for_sni_example =
    route_for_sni-choose_for_sni (λ port. udp (v4 1 port)) nat_eq (λ net peer. leb peer net)
      sample_config plain_addr (some 2)
