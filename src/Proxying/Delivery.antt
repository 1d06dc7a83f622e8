-- ===== src/Proxying/Delivery.antt =====
-- What a backend gets of a client's connection.
use mathlib.Core.List.{append_assoc}
use sni_router.Prelude.{◌≡◌, refl, Bool, true, false, List, [], ◌++◌, Option, none, some}
use sni_router.Prelude.Outcomes.{
  Bytes, Outcome, Post, returns, fails, Post-bind, Post-weaken, Post-bail_if,
}
use sni_router.Records.{Connection}
use sni_router.Records.Replay.{all_bytes}
use sni_router.Handshake.Feeding.{IsRustls}
use sni_router.Handshake.Boundary.{Taken, tls_handshake-Post}
use sni_router.Backends.{Backend}
use sni_router.Connecting.{Event, Network, ConnectedBackend, handed_off, proxied}
use sni_router.Connecting.Served.{
  Served, closed, handed, dialled, instead_of_pass, instead_of_proxy,
}
use sni_router.Proxying.{
  HandleError, no_handshake, lifted, proxy_line, Sockets, write_all, upstream, decrypted,
  handle_connected_proxy,
}

pub lifted-Post :
    {E A : Type 0} {P : A → Type 0} {m : Outcome E A} (f : E → HandleError)
    → Post P m
    → Post P (lifted f m)
lifted-Post f (returns h) = returns h
lifted-Post f fails = fails

-- The line for the backend, where it wants one.
abbrev pub line_of : Sockets → Bool → Bytes
line_of sockets true = proxy_line (sockets.show_ip) (sockets.me) (sockets.peer)
line_of sockets false = []

module _ (sockets : Sockets) where
  write_all-Post :
      (got bytes : Bytes) → Post (λ all. all ≡ got ++ bytes) (write_all sockets got bytes)
  unfolding write_all
  write_all-Post got bytes = Post-bail_if _ _ _ λ taken. returns refl

  upstream-Post :
      (c : Connection) (proxy_header : Bool)
      → Post
          (λ got. got ≡ line_of sockets proxy_header ++ all_bytes c)
          (upstream sockets c proxy_header)
  unfolding upstream
  upstream-Post c true = Post-bind _ _ (write_all-Post [] _) λ line e1.
      Post-bind _ _ (write_all-Post line c.bytes) λ got e2.
        Post-weaken (write_all-Post got c.stream)
          λ all e3. rw (e3, e2, e1) (append_assoc (line_of sockets true) c.bytes c.stream)
  upstream-Post c false = Post-bind {P = λ line. line ≡ []} _ _ (returns refl) λ line e1.
      Post-bind _ _ (write_all-Post line c.bytes)
        λ got e2. Post-weaken (write_all-Post got c.stream) λ all e3. rw (e3, e2, e1) refl

module _ (net : Network) (good : IsRustls net.rustls) (sockets : Sockets) where
  open net use {rustls, ClientConfig}

  -- The connection behind a handshake, where the router ends the client's TLS: what rustls and the kernel make of it.
  abbrev pub Terminated : Connection → Option (rustls.Config) → Connection → Type 0
  Terminated c none c1 = c1 ≡ c
  Terminated c (some cfg) c1 = (sent : Bytes) × Taken rustls c cfg c1 sent

  -- What a backend gets: its line, if any, and all bytes of the connection.
  abbrev pub Sent : Connection → Bool → Option (rustls.Config) → Bytes → Type 0
  Sent c proxy_header server got =
      (c1 : Connection) × Terminated c server c1
      × (got ≡ line_of sockets proxy_header ++ all_bytes c1)

  decrypted-Post :
      (c : Connection) (server : Option (rustls.Config))
      → Post (λ (c1, sent). Terminated c server c1) (decrypted net sockets c server)
  decrypted-Post c none = returns refl
  decrypted-Post c (some cfg) =
      lifted-Post no_handshake
        (Post-weaken (tls_handshake-Post rustls good c cfg) λ (c1, sent) t. (sent, t))

  pub handle_connected_proxy-Post :
      (c : Connection) (proxy_header : Bool) (server : Option (rustls.Config))
      → Post (Sent c proxy_header server) (handle_connected_proxy net sockets c proxy_header server)
  unfolding handle_connected_proxy
  handle_connected_proxy-Post c proxy_header server =
      Post-bind _ _ (decrypted-Post c server)
        λ (c1, sent) t. Post-weaken (upstream-Post sockets c1 proxy_header) λ got e. (c1, t, e)

  -- A backend that is connected gets the connection that was routed.
  abbrev pub IsSame : Connection → ConnectedBackend net → Type 0
  IsSame c handed_off = Unit {0}
  IsSame c (proxied c1 conn proxy_header server) = c1 ≡ c

  pub Served-IsSame :
      (c : Connection) {backend : Backend Bytes (rustls.Config) ClientConfig}
      {start new : List Event} {r : ConnectedBackend net}
      → Served net c backend start new r
      → IsSame c r
  Served-IsSame c closed = tt
  Served-IsSame c (handed e h) = tt
  Served-IsSame c (dialled h) = refl
  Served-IsSame c (instead_of_pass e h) = Served-IsSame c h
  Served-IsSame c (instead_of_proxy before u q h) = Served-IsSame c h
