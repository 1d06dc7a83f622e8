-- ===== src/Lib.antt =====
-- sni-router accepts TLS connections (src/main.rs) and QUIC datagrams (src/bin/sni-router-h3.rs), reads the host
-- name of the ClientHello, picks a backend by rules with ACLs, and forwards. This library models the code that reads
-- bytes from the network, the state of the QUIC router with its handlers, and the choice of the backend.
--
-- How a QUIC connection is routed: the header of an Initial packet is parsed (Quic.LongHeader, Quic.InitialHeader) and the
-- packet is decrypted (Quic.Decrypt), the
-- CRYPTO frames of its payload are read (Quic.Frames) and reassembled into a ClientHello (Quic.Reassembly), the name is
-- extracted (Sni.Http3) and the rules are tried (Routing.Http3). Later datagrams are routed by the connection ID that
-- they start with (CidRoutes). The TCP router extracts the name (Sni) and tries the same rules (Routing.Tcp).
--
-- Which file models what:
--   Prelude           results with an error or a panic, cursors into bytes, maps, ordered maps
--   Quic/Varint       read_varint_at and read_varint of src/bin/sni-router-h3.rs, and encode_varint of its tests
--   Quic/LongHeader   LongPacketCids, parse_long_packet_cids
--   Quic/InitialHeader  InitialHeader, parse_initial_header
--   Quic/Frames       read_crypto_frames, skip_ack_frame, skip_transport_close_frame, skip_application_close_frame
--   Quic/Reassembly   CryptoReassembly with insert, append and clienthello
--   Sni               extract_sni of src/main.rs; Sni/Http3 has extract_tls_sni of src/bin/sni-router-h3.rs
--   CidRoutes         CidRoutes of src/h3_cid_routes.rs with insert, get, remove and match_prefix
--   Net               peer_ip_v6, normalize_socket_addr, socket_addrs_equal, send_addr_for_socket
--   Routing           Acl, Rule, Config, acl_action; Routing/Http3 has route_for_sni and min_timeout, Routing/Tcp the
--                     choice in route_and_connect of src/main.rs
--   Quic/Decrypt      hkdf_expand_label, initial_keys, decrypt_initial_packet_with_dcid; ring is a parameter
--   Records           ensure_bytes_available and read_tls_clienthello of src/main.rs
--   Handshake         tls_handshake of src/main.rs with the functions on records that it calls; Handshake/Feeding has the
--                     laws of rustls, which is a parameter, and says what it is fed
--   Backends          Backend of src/main.rs; Net/HostPort has split_host_port
--   Connecting        connect_for_proxy, connect_or_handoff_backend, pass_fd_over_uds of src/main.rs; Connecting/Dialled
--                     says how a backend is reached, and Connecting/Served what serving a client means
--   Proxying          route_and_connect, handle_conn, handle_connected_backend, handle_connected_proxy of src/main.rs
--   Accepting         recv_fd_over_uds_now and IngressListener::accept of src/main.rs
--   Serving           mainloop of src/main.rs
--   Udp               SendQueue and send_or_queue of src/h3_udp.rs, as steps of the router and of the writer task; Udp/Pool
--                     has PacketPool and Packet
--   Pending           PendingConnection of src/bin/sni-router-h3.rs with new and push_datagram
--   Router            the state of the QUIC router, Router, Connection and Limits of src/bin/sni-router-h3.rs, and its
--                     handlers: Router/Client (handle_datagram, handle_unrouted_client_datagram), Router/Reply
--                     (handle_backend_datagram), Router/Establish (establish_and_flush), Router/Forward
--                     (forward_established_client_datagram, forward_by_peer_affinity, add_cid_route), Router/Lookup (the
--                     lookups, remove_pending, record_sni), Router/Cleanup (cleanup), Router/Mainloop (mainloop)
--   Router/Action     what a handler does: it returns, fails, or panics, and keeps the state that it changed before it failed
--   Router/Invariant  what holds of the router between two events; the handlers keep it, as the Safety files of
--                     Router/Client, Router/Establish, Router/Cleanup and Router/Mainloop show
--   Messages          the messages of proto/sni_router.proto
--   Loading           load_acl, load_backend, load_rule and load_config of src/bin/sni-router-h3.rs; Loading/Tcp has those
--                     of src/main.rs, with load_tls and load_backend_tls; Loading/Loaded and Loading/Tcp/Loaded say
--                     what is loaded from a message
--   QuicLb            Codec of src/quic_lb.rs, with from_key_file; the AES cipher is a parameter, with its inverse law as a hypothesis
--   Backoff           AcceptBackoff of src/main.rs
--   Tests             runs on concrete inputs, and an instance of each theorem
--
-- The QUIC router runs as a sequence of events: a datagram of a client, a datagram of a backend, a new configuration, a
-- tick of the sweep. Each event carries what the environment answers during it (World): the time, which the code reads a
-- few times during an event and the model once, and whether each socket connects and takes a datagram. Library holds
-- what other crates provide. The datagrams sent and the metrics of drops and host names go to a log in the state; the
-- other metrics, which are gauges of sizes, and the texts of the log lines are left out.
--
-- The TCP router runs as a sequence of connections and signals (Serving). A connection is the bytes that were read of it
-- and those that will arrive. What is done to the network for it is a list of events, and what the resolver, the network
-- and rustls answer, through the record Network, may depend on the events before.
--
-- State and errors: a method with `&mut self` takes the state and returns the new one. A function that returns
-- `Result` returns an `Outcome`: ok, err with the site that failed, or panic where Rust indexes out of range or
-- underflows. Safety theorems are of the form `Post P m`: `m` is ok with `P`, or err, and so neither a panic nor out of
-- fuel.
--
-- Bounds and fuel: a byte is a natural number, and `usize` and `u64` have 64 bits, which the sums of a parser do not
-- reach on packets that fit in memory. A QUIC integer is below 2 ^ 62. A loop over bytes takes the length of its buffer
-- as fuel; each round takes a byte at least, and the safety theorems show that the fuel is enough.
--
-- Parameters: `String::from_utf8_lossy`, the test of a regular expression and the test of an IPv6 network come from
-- libraries and are arguments of the definitions that use them. The theorems hold of any of them.
--
-- Not modelled: the timeouts of the TCP router's handshakes and rules, and the copying of a backend's answer to the
-- client; the text format of the configuration file; sockets, timers, tokio tasks other than the UDP writer, gauges,
-- logging, privileges and the resolver, which are input and output.
pub mod Prelude
pub mod Quic
pub mod Sni
pub mod CidRoutes
pub mod Net
pub mod Routing
pub mod Records
pub mod Handshake
pub mod Connecting
pub mod Proxying
pub mod Accepting
pub mod Serving
pub mod QuicLb
pub mod Backoff
pub mod Pending
pub mod Router
pub mod Messages
pub mod Backends
pub mod Loading
pub mod Udp
mod Tests
