-- ===== src/Udp/Pool.antt =====
-- `PacketPool` and `Packet` of src/h3_udp.rs: a cache of receive buffers. The end of the vector, where `push` and `pop` work, is
-- the front of the list.
use sni_router.Prelude.{
  ℕ, zero, suc, ◌-◌, ◌≤◌, ◌≡◌, refl, inl, inr, List, [], ◌∷◌, ◌++◌, Bool-cases, ltb, leb, le→leb,
  length, take, drop, length-append, length-drop, tests, arith, if◌then◌else◌,
}
use sni_router.Prelude.Outcomes.{Bytes, Outcome, ok, panic, ◌>>=◌, slice, run_steps}
use sni_router.Udp.{max_datagram_size}

abbrev pub max_cached_buffers : ℕ
max_cached_buffers = 32

pub record PacketPool : Type 0 where
  pub buffers : List Bytes

pub record Packet : Type 0 where
  pub buffer : Bytes
  pub len : ℕ

pub data PoolError : Type 0 where
  no_error : PoolError

-- `vec![0; n]`
unfoldable pub zeroed : ℕ → Bytes
zeroed zero = []
zeroed (suc n) = 0 ∷ zeroed n

abbrev take_buffer : List Bytes → Packet × PacketPool
take_buffer [] = (record { buffer = zeroed max_datagram_size; len = 0 }, record { buffers = [] })
take_buffer (buffer ∷ buffers) = (record { buffer = buffer; len = 0 }, record { buffers = buffers })

pub acquire : PacketPool → Packet × PacketPool
acquire pool = take_buffer pool.buffers

-- `try_recv(packet.buffer_mut())` writes a datagram over the front of the buffer.
pub receive : Packet → Bytes → Packet
receive packet datagram = record packet {
  buffer = datagram ++ drop (length datagram) packet.buffer;
}

-- `assert!(len <= self.buffer.len())`
pub set_len : Packet → ℕ → Outcome PoolError Packet
set_len packet len =
    if leb len (length packet.buffer) then ok (record packet { len = len }) else panic

-- `&self.buffer[..self.len]`
pub deref : Packet → Outcome PoolError Bytes
deref packet = slice packet.buffer 0 packet.len

-- `Drop`: a buffer goes back to the cache while there is room.
pub drop_packet : PacketPool → Packet → PacketPool
drop_packet pool packet =
    if ltb (length pool.buffers) max_cached_buffers
    then record { buffers = packet.buffer ∷ pool.buffers }
    else pool

-- The buffers have room for any datagram.
abbrev AllFull : List Bytes → Type 0
AllFull [] = Unit {0}
AllFull (buffer ∷ buffers) = (length buffer ≡ max_datagram_size) × AllFull buffers

pub record IsPool (pool : PacketPool) : Type 0 where
  pub full : AllFull pool.buffers
  pub few : length pool.buffers ≤ max_cached_buffers

pub length-zeroed : (n : ℕ) → length (zeroed n) ≡ n
unfolding zeroed
length-zeroed zero = refl
length-zeroed (suc n) = omega (arith, length-zeroed n)

acquire-IsPool :
    (pool : PacketPool)
    → IsPool pool
    → (length (acquire pool).0.buffer ≡ max_datagram_size) × IsPool (acquire pool).1
unfolding acquire
acquire-IsPool pool v = cases pool.buffers v.full v.few
  where
    cases :
        (buffers : List Bytes)
        → AllFull buffers
        → length buffers ≤ max_cached_buffers
        → (length (take_buffer buffers).0.buffer ≡ max_datagram_size)
          × IsPool (take_buffer buffers).1
    cases [] f n = (length-zeroed max_datagram_size, record { full = tt; few = omega arith })
    cases (buffer ∷ buffers) (f, fs) n = (f, record { full = fs; few = omega arith })

take-front : (xs ys : Bytes) → take (length xs) (xs ++ ys) ≡ xs
take-front [] ys = refl
take-front (x ∷ xs) ys = rw (take-front xs ys) refl

-- The whole life of a packet: a buffer of the pool, a datagram in it, its length, its bytes, and its way back.
abbrev pub reads : PacketPool → Bytes → Outcome PoolError (Bytes × PacketPool)
reads pool datagram = do
  let (packet, pool1) = acquire pool
  filled ← set_len (receive packet datagram) (length datagram)
  bytes ← deref filled
  ok (bytes, drop_packet pool1 filled)

-- In a pool of at most 32 buffers of the size of the largest datagram, a datagram of at most that size is read back as
-- it was received, whatever its buffer held before and with no panic; and the pool is such a pool again.
pub reads-IsPool :
    (pool : PacketPool) (datagram : Bytes)
    → IsPool pool
    → length datagram ≤ max_datagram_size
    → (pool' : PacketPool) × (reads pool datagram ≡ ok (datagram, pool')) × IsPool pool'
unfolding run_steps set_len deref receive drop_packet
reads-IsPool pool datagram v small =
    let (full, w) = acquire-IsPool pool v in
    let n = length datagram in
    let buffer = datagram ++ drop n (acquire pool).0.buffer in
    let sum = length-append datagram (drop n (acquire pool).0.buffer) in
    let fits = le→leb n (length buffer) (omega arith) in
    let all : take (n - 0) buffer ≡ datagram =
      (let zero_less : n - 0 ≡ n = omega arith in
        rw zero_less (take-front datagram (drop n (acquire pool).0.buffer))) in
    elim (Bool-cases (ltb (length (acquire pool).1.buffers) max_cached_buffers)) [
      | inl e ↦ (
        record { buffers = buffer ∷ (acquire pool).1.buffers },
        rw (fits, le→leb 0 n (omega arith), fits, all, e) refl,
        record {
          full = (omega (arith, length-drop n (acquire pool).0.buffer), w.full);
          few = omega tests;
        },
      )
      | inr e ↦ ((acquire pool).1, rw (fits, le→leb 0 n (omega arith), fits, all, e) refl, w)
    ]
