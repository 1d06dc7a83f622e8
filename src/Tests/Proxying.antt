-- ===== src/Tests/Proxying.antt =====
-- A primary backend that refuses and a sorry backend behind a path; and a client without TLS whose bytes go to a proxy
-- behind a PROXY line.
use sni_router.Prelude.{ℕ, ◌≡◌, refl, Bool, true, false, [], ◌∷◌, none, some, nat_eq, length}
use sni_router.Prelude.Outcomes.{Bytes, ok, run_steps}
use sni_router.Net.{SocketAddr, v4, v6, peer_ip_v6}
use sni_router.Net.HostPort.{split_host_port, parse_u16}
use sni_router.Net.HostPort.Written.{joined, split_host_port-joined}
use sni_router.Records.{Connection, ensure_bytes_available, read_tls_clienthello}
use sni_router.Routing.{accept, acl_action, match_action}
use sni_router.Routing
use sni_router.Routing.Tcp.{choose_default, choose_backend}
use sni_router.Backends.{Backend, pass, proxy, no_sorry, sorry}
use sni_router.Connecting.{
  Network, Event, connected, refused, unix_connected, passed, handed_off,
  connect_or_handoff_backend, connect_for_proxy, hand_off, pass_fd_over_uds, catch, emit,
}
use sni_router.Connecting
use sni_router.Connecting.Runs.{Reached}
use sni_router.Connecting.Served.{Served}
use sni_router.Connecting.Fallback.{Fails, connect_or_handoff_backend-Runs}
use sni_router.Proxying.{Sockets, handle_conn, handle_connected_proxy, proxy_line, route, show_u16}
use sni_router.Proxying.EndToEnd.{Ends, handle_conn-Ends}
use sni_router.Tests.Handshake.{toy, toy-IsRustls}

abbrev is_second : SocketAddr → Bool
is_second (v4 ip port) = nat_eq ip 2
is_second (v6 ip port flow scope) = false

-- The first address refuses, and every path takes what it gets.
abbrev network : Network
network = record {
  rustls = toy;
  ClientConfig = Unit {0};
  lookup_host = λ events addr. some (v4 1 80 ∷ v4 2 80 ∷ []);
  tcp_connect = λ events addr. is_second addr;
  unix_connect = λ events path. true;
  is_server_name = λ host. true;
  backend_tls = λ events cfg host. none;
  sendmsg = λ events path bytes. some (length bytes);
}

abbrev client : Connection
client = record { bytes = 71 ∷ 69 ∷ []; stream = 84 ∷ [] }

-- TLS with the primary backend fails, and its sorry backend is a path.
abbrev primary : Backend Bytes (Unit {0}) (Unit {0})
primary = proxy (98 ∷ 58 ∷ 49 ∷ []) false none (some tt) (sorry (pass (115 ∷ []) none no_sorry))

connect_or_handoff_backend-runs :
    (connect_or_handoff_backend network client primary []).events
    ≡ refused (v4 1 80)
      ∷ connected (v4 2 80)
      ∷ Connecting.backend_handshake (98 ∷ [])
      ∷ unix_connected (115 ∷ [])
      ∷ passed (115 ∷ []) (71 ∷ 69 ∷ [])
      ∷ []
unfolding run_steps connect_or_handoff_backend connect_for_proxy hand_off pass_fd_over_uds catch
    emit Connecting.◌>>=◌ split_host_port parse_u16
connect_or_handoff_backend-runs = refl

connect_or_handoff_backend-Runs_example :
    Reached
      (Served network client primary [])
      (Fails network toy-IsRustls client primary [])
      []
      (connect_or_handoff_backend network client primary [])
connect_or_handoff_backend-Runs_example =
    connect_or_handoff_backend-Runs network toy-IsRustls client primary []

abbrev sockets : Sockets
sockets = record {
  show_ip = λ addr. 49 ∷ [];
  me = v4 9 443;
  peer = v4 8 1234;
  accepts = λ got bytes. true;
}

-- The default rule proxies, with a PROXY line.
abbrev config : Routing.Config ℕ ℕ (Backend Bytes (Unit {0}) (Unit {0}))
config = record {
  max_lifetime = none;
  handshake_timeout = none;
  rules = [];
  default = record {
    re = 0;
    backend = proxy (98 ∷ 58 ∷ 49 ∷ []) true none none no_sorry;
    acl = record { rules = []; default_action = accept };
    timeout = none;
  };
}

handle_conn-runs :
    handle_conn network sockets
      (λ re name. true)
      (λ net ip. true)
      (λ (name : Bytes). name)
      config
      (71 ∷ 69 ∷ [])
      (84 ∷ 32 ∷ 47 ∷ 10 ∷ [])
      []
    ≡ (
      refused (v4 1 80) ∷ connected (v4 2 80) ∷ [],
      -- "PROXY TCP4 1 1 1234 443\r\nGET /\n"
      ok (
          some (
            v4 2 80,
            80 ∷ 82 ∷ 79 ∷ 88 ∷ 89 ∷ 32 ∷ 84 ∷ 67 ∷ 80 ∷ 52 ∷ 32 ∷ 49 ∷ 32 ∷ 49 ∷ 32 ∷ 49 ∷ 50 ∷ 51
                ∷ 52 ∷ 32 ∷ 52 ∷ 52 ∷ 51 ∷ 13 ∷ 10 ∷ 71 ∷ 69 ∷ 84 ∷ 32 ∷ 47 ∷ 10 ∷ [],
          )),
    )
unfolding run_steps handle_conn handle_connected_proxy route proxy_line show_u16
    read_tls_clienthello ensure_bytes_available choose_default choose_backend acl_action
    match_action peer_ip_v6 connect_or_handoff_backend connect_for_proxy catch emit Connecting.◌>>=◌
handle_conn-runs = refl

handle_conn-Ends_example :
    Ends network toy-IsRustls sockets
      (λ re name. true)
      (λ net ip. true)
      (λ (name : Bytes). name)
      config
      (71 ∷ 69 ∷ [])
      (84 ∷ 32 ∷ [])
      []
      (handle_conn network sockets
        (λ re name. true)
        (λ net ip. true)
        (λ (name : Bytes). name)
        config
        (71 ∷ 69 ∷ [])
        (84 ∷ 32 ∷ [])
        [])
handle_conn-Ends_example =
    handle_conn-Ends network toy-IsRustls sockets (λ re name. true) (λ net ip. true)
      (λ (name : Bytes). name) config (71 ∷ 69 ∷ []) (84 ∷ 32 ∷ []) []

split_host_port-joined_example :
    split_host_port (joined (58 ∷ 58 ∷ 49 ∷ []) (56 ∷ 48 ∷ [])) ≡ ok (58 ∷ 58 ∷ 49 ∷ [], 80)
unfolding parse_u16
split_host_port-joined_example =
    split_host_port-joined (58 ∷ 58 ∷ 49 ∷ []) (56 ∷ 48 ∷ []) 80 refl refl refl
