-- ===== src/Tests/Accepting.antt =====
-- A connection that is passed on by a datagram; signals between connections; a key file.
use sni_router.Prelude.{
  ℕ, ◌+◌, ◌≡◌, refl, true, false, List, [], ◌∷◌, ◌++◌, some, ltb, length, take, get_elem?, arith,
}
use sni_router.Prelude.Outcomes.{Bytes, ok, err, run_steps}
use sni_router.Records.{Connection, clienthello, ensure_bytes_available, read_tls_clienthello}
use sni_router.Records.Replay.{all_bytes}
use sni_router.Records.Alike.{Alike}
use sni_router.Records.Split.{SameHello, read_tls_clienthello-split}
use sni_router.Accepting.{Message, message, control_truncated, recv_fd_over_uds_now, accept}
use sni_router.Accepting.HandOver.{IsRecvmsg, datagram, accept-read_tls_clienthello}
use sni_router.Loading.{no_default}
use sni_router.Serving.{Wake, accepted, hup, mainloop}
use sni_router.Serving.Latest.{count, latest, mainloop-latest}
use sni_router.QuicLb.{new, from_key_file}
use sni_router.QuicLb.KeyFile.{AllBytes, show_hex, from_key_file-show_hex}

abbrev receive : ℕ → Bytes → ℕ → Message ℕ
receive capacity bytes fd = record {
  buf = bytes ++ 0 ∷ [];
  bytes = length bytes;
  is_truncated = ltb capacity (length bytes);
  is_control_truncated = false;
  fds = fd ∷ [];
}

receive-IsRecvmsg : IsRecvmsg receive
receive-IsRecvmsg = record {
  fits = λ capacity bytes fd h.
      let e : ltb capacity (length bytes) ≡ false = ground (arith, h) in (0 ∷ [], rw e refl);
  truncates = λ capacity bytes fd h. ground (arith, h);
}

-- What is left of a connection of which two records were read.
abbrev router : Connection
router = record {
  bytes = 22 ∷ 3 ∷ 1 ∷ 0 ∷ 1 ∷ 1 ∷ 22 ∷ 3 ∷ 1 ∷ 0 ∷ 3 ∷ 0 ∷ 0 ∷ 0 ∷ [];
  stream = 99 ∷ [];
}

abbrev arriving : Bytes
arriving = 22 ∷ 3 ∷ 1 ∷ 0 ∷ 1 ∷ 1 ∷ 22 ∷ 3 ∷ 1 ∷ 0 ∷ 3 ∷ 0 ∷ 0 ∷ 0 ∷ 99 ∷ []

read_router : read_tls_clienthello [] arriving ≡ ok (router, clienthello (1 ∷ 0 ∷ 0 ∷ 0 ∷ []))
unfolding run_steps read_tls_clienthello ensure_bytes_available
read_router = refl

accept-read_tls_clienthello_example :
    (accept {Fd = ℕ} {Stream = ℕ}
        (λ fd. some fd)
        (datagram (λ fd. some fd) receive receive-IsRecvmsg (router.bytes) 7)
      ≡ ok (record { stream = 7; initial_bytes = router.bytes }))
    × ((c2 : Connection) × (read_tls_clienthello (router.bytes) (router.stream)
          ≡ ok (c2, clienthello (1 ∷ 0 ∷ 0 ∷ 0 ∷ [])))
        × (all_bytes c2 ≡ [] ++ arriving))
accept-read_tls_clienthello_example =
    accept-read_tls_clienthello (λ fd. some fd) receive receive-IsRecvmsg [] arriving router
      (clienthello (1 ∷ 0 ∷ 0 ∷ 0 ∷ [])) 7 7 read_router refl (omega arith)

-- A message whose control data was cut is refused, though it has a descriptor.
recv_fd_over_uds_now-control :
    recv_fd_over_uds_now {Fd = ℕ} {Stream = ℕ}
      (λ fd. some fd)
      (message (record {
        buf = [];
        bytes = 0;
        is_truncated = false;
        is_control_truncated = true;
        fds = 7 ∷ [];
      }))
    ≡ err control_truncated
unfolding run_steps recv_fd_over_uds_now
recv_fd_over_uds_now-control = refl

read_tls_clienthello-split_example :
    Alike SameHello (read_tls_clienthello [] arriving) (
      read_tls_clienthello (22 ∷ 3 ∷ []) (1 ∷ 0 ∷ 1 ∷ 1 ∷ 22 ∷ 3 ∷ 1 ∷ 0 ∷ 3 ∷ 0 ∷ 0 ∷ 0 ∷ 99 ∷ []))
read_tls_clienthello-split_example =
    read_tls_clienthello-split [] arriving (22 ∷ 3 ∷ [])
      (1 ∷ 0 ∷ 1 ∷ 1 ∷ 22 ∷ 3 ∷ 1 ∷ 0 ∷ 3 ∷ 0 ∷ 0 ∷ 0 ∷ 99 ∷ []) refl

-- A connection, a configuration that loads, and one that does not.
abbrev wakes : List (Wake ℕ ℕ)
wakes = accepted 50 ∷ hup (ok 2) ∷ hup (err no_default) ∷ []

mainloop-latest_example :
    get_elem? (mainloop 1 0 (wakes ++ accepted 51 ∷ [])) (count wakes)
    ≡ some (record { id = 0 + count wakes; config = latest 1 wakes; conn = 51 })
mainloop-latest_example = mainloop-latest 1 0 wakes [] 51

abbrev key : Bytes
key =
    0x8f ∷ 0x95 ∷ 0xf0 ∷ 0x92 ∷ 0x45 ∷ 0x76 ∷ 0x5f ∷ 0x80 ∷ 0x25 ∷ 0x69 ∷ 0x34 ∷ 0xe5 ∷ 0x0c ∷ 0x66
    ∷ 0x20 ∷ 0x7f ∷ []

key-AllBytes : AllBytes key
key-AllBytes = ground arith

-- The text ends with a line feed.
from_key_file-show_hex_example :
    from_key_file (take 32) (λ bytes. bytes) 2 (some (show_hex key ++ 10 ∷ [])) ≡ new 2 key
from_key_file-show_hex_example =
    from_key_file-show_hex (take 32) (λ bytes. bytes) 2 (show_hex key ++ 10 ∷ []) key refl refl
      key-AllBytes
