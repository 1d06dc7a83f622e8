-- ===== src/Router.antt =====
-- The state of the QUIC router: `Router`, `Connection`, `Limits` and `Config` of src/bin/sni-router-h3.rs, and what an event
-- does with it. A handler takes what the environment answers during its event, and the state; it returns, fails with
-- `Err` and the state as it is by then, or panics. What it sends and counts is appended to a log.
pub mod Action
pub mod Lookup
pub mod Forward
pub mod Establish
pub mod Client
pub mod Reply
pub mod Cleanup
pub mod Mainloop
pub mod Invariant
use sni_router.Prelude.{
  ℕ, ◌+◌, ◌-◌, ◌*◌, ◌≤◌, ◌||◌, Bool, true, false, List, [], Option, none, some, leb,
}
use sni_router.Prelude.Equality.{Key}
use sni_router.Prelude.Maps.{Map}
use sni_router.Prelude.Outcomes.{Bytes}
use sni_router.CidRoutes.{CidRoutes, empty_routes}
use sni_router.Net.{SocketAddr}
use sni_router.Pending.{PendingConnection, PendingError}
use sni_router.Quic.Decrypt.{Ring}
use sni_router.QuicLb.{Codec}
use sni_router.Routing.{RouteError}
use sni_router.Routing
use sni_router.Routing.Http3.{Backend}

-- What other libraries provide: regular expressions, IPv6 networks, text, AES and ring.
pub record Library : Type 1 where
  pub Regex : Type 0
  pub Net : Type 0
  pub Text : Type 0
  pub Cipher : Type 0
  pub is_match : Regex → Text → Bool
  pub contains : Net → ℕ → Bool
  pub from_utf8_lossy : Bytes → Text
  pub text_len : Text → ℕ
  pub text_key : Key Text
  pub encrypt_block : Cipher → Bytes → Bytes
  pub decrypt_block : Cipher → Bytes → Bytes
  pub ring : Ring

-- What the environment answers during one event: the time, which is read once, whether `send_or_queue` takes a datagram
-- for a path, whether a socket can be connected, and the address of the listening socket, if it takes a datagram.
pub record World : Type 0 where
  pub now : ℕ
  pub takes : ℕ → Bytes → Bool
  pub connects : SocketAddr → Bool
  pub listener : SocketAddr
  pub listener_takes : Bytes → Bool

pub record Limits : Type 0 where
  pub max_paths : ℕ
  pub max_pending_handshakes : ℕ
  pub max_pending_bytes : ℕ
  pub max_cids_per_path : ℕ

abbrev pub default_limits : Limits
default_limits = record {
  max_paths = 1024;
  max_pending_handshakes = 1024;
  max_pending_bytes = 16 * 1024 * 1024;
  max_cids_per_path = 64;
}

abbrev pub max_sni_metric_labels : ℕ
max_sni_metric_labels = 1024

abbrev pub max_sni_metric_label_bytes : ℕ
max_sni_metric_label_bytes = 255

-- `backend_addr` is what the path's socket is connected to; the writer and the reader task of the socket are left out.
pub record Connection (Text : Type 0) : Type 0 where
  pub backend_addr : SocketAddr
  pub client_addr : SocketAddr
  pub initial_key_dcid : Bytes
  pub cids : List Bytes
  pub created : ℕ
  pub last_seen : ℕ
  pub deadline : Option ℕ
  pub sni : Option Text

-- `deadline.is_some_and(|deadline| now >= deadline)`
abbrev pub is_past : ℕ → Option ℕ → Bool
is_past now none = false
is_past now (some deadline) = leb deadline now

-- `saturating_duration_since` is the subtraction on ℕ.
unfoldable pub expired : {Text : Type 0} → Connection Text → ℕ → ℕ → Bool
expired conn now idle_timeout = leb idle_timeout (now - conn.last_seen) || is_past now conn.deadline

pub record LbConfig (Cipher : Type 0) : Type 0 where
  pub codec : Codec Cipher
  pub servers : Map ℕ SocketAddr

pub record Config (lib : Library) : Type 0 where
  pub quic_lb : List (LbConfig lib.Cipher)
  pub routing : Routing.Config lib.Regex lib.Net Backend

-- Why a datagram is dropped: the labels of the metric.
pub data Reason : Type 0 where
  malformed expired_path unexpected_peer no_unique_peer invalid_initial unsupported_packet
        invalid_frames :
      Reason
  pending_handshake_limit pending_bytes_limit crypto_fragment_limit null_backend cid_collision
        cid_limit :
      Reason
  path_limit stale_backend malformed_backend pending_timeout : Reason

pub data SniLabel (Text : Type 0) : Type 0 where
  named : Text → SniLabel Text
  other unknown missing : SniLabel Text

pub data Output (Text : Type 0) : Type 0 where
  -- a datagram handed to `send_or_queue` of a path, and one sent to a client
  to_backend : ℕ → Bytes → Output Text
  to_client : SocketAddr → Bytes → Output Text
  dropped : Reason → ℕ → Output Text
  cid_limit_hit : Output Text
  sni_seen : SniLabel Text → Output Text

pub data RouterError : Type 0 where
  send_failed connect_failed address_mismatch : RouterError
  not_routed : RouteError → RouterError
  not_pending : PendingError → RouterError

-- A client's address and the connection ID of its first Initial packet.
abbrev pub PendingKey : Type 0
PendingKey = SocketAddr × Bytes

pub record Router (lib : Library) : Type 0 where
  pub limits : Limits
  pub pending_bytes : ℕ
  pub sni_metric_labels : List lib.Text
  pub config : Config lib
  pub idle_timeout : ℕ
  pub next_connection_id : ℕ
  pub connections : Map ℕ (Connection lib.Text)
  pub cid_routes : CidRoutes
  pub lb_paths : Map (SocketAddr × SocketAddr) ℕ
  pub client_routes : Map SocketAddr (List ℕ)
  pub pending : Map PendingKey PendingConnection
  pub log : List (Output lib.Text)

unfoldable pub new : {lib : Library} → Config lib → ℕ → Router lib
new config idle_timeout = record {
  limits = default_limits;
  pending_bytes = 0;
  sni_metric_labels = [];
  config = config;
  idle_timeout = idle_timeout;
  next_connection_id = 0;
  connections = [];
  cid_routes = empty_routes;
  lb_paths = [];
  client_routes = [];
  pending = [];
  log = [];
}

unfoldable pub set_config : {lib : Library} → Config lib → Router lib → Router lib
set_config config r = record r { config = config }
