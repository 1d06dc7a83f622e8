-- ===== src/Tests/Router.antt =====
-- Runs of the QUIC router over a library of little functions: keys and masks are zeros, and a packet is its own plaintext.
use sni_router.Prelude.{
  ℕ, zero, suc, ◌-◌, ◌≡◌, refl, true, List, [], ◌∷◌, ◌++◌, Option, none, some, length, take, arith,
}
use sni_router.Prelude.Equality.{nat_Key, bytes_Key, bytes_eq}
use sni_router.Prelude.Maps
use sni_router.Prelude.Outcomes.{Bytes, Post, run_steps}
use sni_router.CidRoutes
use sni_router.Net.{SocketAddr, v4}
use sni_router.Quic.Decrypt.{Ring, decrypt_initial_packet_with_dcid}
use sni_router.Quic.Decrypt.Safety.{IsRing, decrypt_initial_packet_with_dcid-Post}
use sni_router.Routing.{accept, Rule}
use sni_router.Routing.Http3.{Backend, udp}
use sni_router.Net.Laws.{addr_Key}
use sni_router.Prelude.Equality.{pair_Key}
use sni_router.Router.Client.Routed.{Treated, handle_datagram-routed}
use sni_router.Prelude.Outcomes.{ok}
use sni_router.Router.Invariant.Timeout.{waiting_on}
use sni_router.Router.{
  Connection, PendingKey, Library, World, default_limits, Config, Router, Output, new, missing,
  sni_seen, to_backend, to_client, expired,
}
use sni_router.Router.Action.{Ends, resume, attempt}
use sni_router.Router.Cleanup.{
  cleanup, unroute_all, forget, forget_all, expired_ids, retain_pending, cleanup_pending,
  forget_lb_paths, minimum,
}
use sni_router.Router.Client.{handle_datagram, handle_unrouted_client_datagram}
use sni_router.Router.Reply.{
  send_to_client, forward_established_backend_datagram, handle_backend_datagram,
}
use sni_router.Router.Establish.{
  claimed_cids, requested_cids, route_all, register, flush, establish_and_flush, add_cids,
}
use sni_router.Router.Forward.{add_cid_route, send}
use sni_router.Router.Lookup.{
  lb_server, lb_backend, match_short_header_route, packet_connection_id, remove_pending, record_sni,
}
use sni_router.Prelude.Sets.{filter, any, insert_each}
use sni_router.Quic.LongHeader.{parse_long_packet_cids}
use sni_router.Quic.InitialHeader.{parse_initial_header}
use sni_router.Quic.Varint.{read_varint, read_varint_at}
use sni_router.Quic.Frames.{read_crypto_frames}
use sni_router.Quic.Reassembly.{clienthello, insert}
use sni_router.Quic.Reassembly.Stream.{insert_all}
use sni_router.Pending
use sni_router.Pending.{push_datagram}
use sni_router.Sni.Http3.{extract_tls_sni}
use sni_router.Routing.Http3.{min_timeout, route_for_sni}
use sni_router.Routing.{acl_action}
use sni_router.CidRoutes.{match_prefix, get, remove}
use sni_router.Net.{addr_eq, normalize_socket_addr, send_addr_for_socket}
use sni_router.Quic.Decrypt.{packet_nonce}
use sni_router.Router.Cleanup.Safety.{swept, cleanup-Ends}
use sni_router.Router.Invariant.{holds, Inv}
use sni_router.Router.Mainloop.{Event, client, backend, hangup, tick, start, handle, mainloop}
use sni_router.Router.Mainloop.Safety.{start-Inv, mainloop-Inv, mainloop-get}

abbrev zeros : ℕ → Bytes
zeros zero = []
zeros (suc n) = 0 ∷ zeros n

length-zeros : (n : ℕ) → length (zeros n) ≡ n
length-zeros zero = refl
length-zeros (suc n) = omega (arith, length-zeros n)

abbrev clear_ring : Ring
clear_ring = record {
  OpeningKey = Unit {0};
  HeaderKey = Unit {0};
  extract = λ salt key. key;
  expand = λ secret info len. some (zeros len);
  opening_key = λ key. some tt;
  header_key = λ key. some tt;
  new_mask = λ hp sample. some (zeros 5);
  open_in_place = λ key nonce aad sealed. some (take (length sealed - 16) sealed);
}

expanded : (len : ℕ) (out : Bytes) → some (zeros len) ≡ some out → length out ≡ len
expanded len out e = let f : zeros len ≡ out = cc in rw f at (length-zeros len)

clear_ring-IsRing : IsRing clear_ring
clear_ring-IsRing = record {
  expand_length = λ secret info len out e. expanded len out e;
  mask_length = λ hp sample mask e. expanded 5 mask e;
}

abbrev little : Library
little = record {
  Regex = Unit {0};
  Net = Unit {0};
  Text = Bytes;
  Cipher = ℕ;
  is_match = λ re name. true;
  contains = λ net ip. true;
  from_utf8_lossy = λ bytes. bytes;
  text_len = λ text. length text;
  text_key = bytes_Key;
  encrypt_block = λ key block. block;
  decrypt_block = λ key block. block;
  ring = clear_ring;
}

abbrev server : SocketAddr
server = v4 0xc0000202 443

abbrev peer : SocketAddr
peer = v4 0xc0000201 5000

abbrev everything : Rule (Unit {0}) (Unit {0}) Backend
everything = record {
  re = tt;
  backend = udp server;
  acl = record { rules = []; default_action = accept };
  timeout = none;
}

abbrev one_server : Config little
one_server = record {
  quic_lb = [];
  routing = record {
    max_lifetime = none;
    handshake_timeout = none;
    rules = [];
    default = everything;
  };
}

-- Every socket works.
abbrev fair : ℕ → World
fair now = record {
  now = now;
  takes = λ id packet. true;
  connects = λ addr. true;
  listener = v4 0 443;
  listener_takes = λ packet. true;
}

-- A ClientHello without extensions.
abbrev hello : Bytes
hello = 1 ∷ 0 ∷ 0 ∷ 41 ∷ (zeros 34 ++ 0 ∷ 0 ∷ 2 ∷ 0 ∷ 0 ∷ 1 ∷ 0 ∷ [])

-- An Initial packet from connection ID 9 to 8, with the hello in a CRYPTO frame and a tag of zeros.
abbrev initial : Bytes
initial =
    0xc0 ∷ 0 ∷ 0 ∷ 0 ∷ 1 ∷ 1 ∷ 8 ∷ 1 ∷ 9 ∷ 0 ∷ 0x40 ∷ 65 ∷ 0 ∷ 6 ∷ 0 ∷ 45 ∷ (hello ++ zeros 16)

-- The path opens, the server answers it, and half a minute later it is swept.
abbrev events : List (Event little)
events =
    client (fair 100) peer initial
    ∷ backend (fair 200) 0 (64 ∷ 9 ∷ [])
    ∷ hangup none
    ∷ tick (fair 40000)
    ∷ []

abbrev at_start : Router little
at_start = start one_server 30000 default_limits

mainloop-Inv_example : (s : Router little) × (mainloop events at_start ≡ some s) × Inv s
mainloop-Inv_example =
    mainloop-Inv clear_ring-IsRing events at_start (start-Inv one_server 30000 default_limits)

mainloop-get_example :
    (s : Router little) × (mainloop events at_start ≡ some s)
    × ((cid : Bytes) (id : ℕ)
        → holds cid (Maps.get id s.connections) ≡ true
        → CidRoutes.get s.cid_routes cid ≡ some id)
    × ((cid : Bytes) (id : ℕ)
        → CidRoutes.get s.cid_routes cid ≡ some id
        → holds cid (Maps.get id s.connections) ≡ true)
mainloop-get_example = mainloop-get clear_ring-IsRing one_server 30000 default_limits events

-- After the first of them.
opened :
    (s : Router little) × (mainloop (client (fair 100) peer initial ∷ []) at_start ≡ some s) × Inv s
opened =
    mainloop-Inv clear_ring-IsRing (client (fair 100) peer initial ∷ []) at_start
      (start-Inv one_server 30000 default_limits)

cleanup-Ends_example :
    Ends Inv
      (λ _ s.
        ((id : ℕ)
          → Maps.get id s.connections
            ≡ swept 40000 opened.0.idle_timeout (Maps.get id opened.0.connections))
        × ((key : PendingKey)
            → Maps.get key s.pending
              ≡ waiting_on 40000
                  (minimum opened.0.config.routing.handshake_timeout opened.0.idle_timeout)
                  (Maps.get key opened.0.pending)))
      (cleanup (fair 40000) opened.0)
cleanup-Ends_example = cleanup-Ends (fair 40000) opened.0 opened.2

-- A path that holds the connection ID 9.
abbrev one_conn : Connection Bytes
one_conn = record {
  backend_addr = server;
  client_addr = peer;
  initial_key_dcid = 8 ∷ [];
  cids = (9 ∷ []) ∷ [];
  created = 100;
  last_seen = 100;
  deadline = none;
  sni = none;
}

abbrev one_path : Router little
one_path = record at_start {
  next_connection_id = 1;
  connections = (0, one_conn) ∷ [];
  cid_routes = record { by_length = (1, (9 ∷ [], 0) ∷ []) ∷ [] };
}

one_path-found : packet_connection_id one_path (64 ∷ 9 ∷ []) ≡ ok (none, some 0)
unfolding run_steps packet_connection_id parse_long_packet_cids match_short_header_route
    match_prefix Maps.get bytes_eq start new
one_path-found = refl

one_path-get : Maps.get 0 one_path.connections ≡ some one_conn
unfolding Maps.get
one_path-get = refl

handle_datagram-routed_example :
    Treated
      (fair 200)
      peer
      (64 ∷ 9 ∷ [])
      none
      0
      one_conn
      one_path
      (handle_datagram (fair 200) peer (64 ∷ 9 ∷ []) one_path)
handle_datagram-routed_example =
    handle_datagram-routed (fair 200) peer 64 (9 ∷ []) none 0 one_conn one_path one_path-found refl
      one_path-get

decrypt_initial_packet_with_dcid-Post_example :
    Post (λ _. Unit {0}) (decrypt_initial_packet_with_dcid clear_ring initial none)
decrypt_initial_packet_with_dcid-Post_example =
    decrypt_initial_packet_with_dcid-Post clear_ring clear_ring-IsRing initial none

abbrev log_of : Option (Router little) → List (Output Bytes)
log_of none = []
log_of (some r) = r.log

mainloop-runs :
    log_of (mainloop events at_start)
    ≡ sni_seen missing ∷ to_backend 0 initial ∷ to_client peer (64 ∷ 9 ∷ []) ∷ []
unfolding run_steps start new handle mainloop handle_datagram handle_unrouted_client_datagram
    handle_backend_datagram forward_established_backend_datagram send_to_client cleanup unroute_all
    forget forget_all expired_ids retain_pending cleanup_pending forget_lb_paths minimum resume
    attempt packet_connection_id match_short_header_route parse_long_packet_cids Maps.get Maps.put
    Maps.delete claimed_cids requested_cids route_all register flush establish_and_flush add_cids
    add_cid_route send lb_server lb_backend remove_pending record_sni filter any insert_each
    parse_initial_header read_varint read_crypto_frames clienthello insert insert_all Pending.new
    push_datagram extract_tls_sni route_for_sni acl_action match_prefix CidRoutes.get
    CidRoutes.insert CidRoutes.remove normalize_socket_addr send_addr_for_socket packet_nonce
    decrypt_initial_packet_with_dcid expired bytes_eq addr_eq read_varint_at min_timeout
mainloop-runs = refl
