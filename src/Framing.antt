-- ===== src/Framing.antt =====
-- Netlib/TcpClient.cpp, SplitPacket: the received bytes are cut into packets that carry their own
-- size. The receive pool and the application's callback are the operations of an interface.
pub mod Stream
pub mod Drain
pub mod Promise
pub mod Loop
pub mod Refine
pub mod Chunks
pub mod Roundtrip
mod Tests
use iocp_netlib.Base.{
  ℕ, zero, suc, ◌+◌, ◌-◌, ◌*◌, ◌^◌, min, Bool, true, false, ◌||◌, Option, none, some, List, [], ◌∷◌,
  length, take, drop, get_or, ltb, leb, ◌==◌, if◌then◌else◌, write_at, move_front,
}
use iocp_netlib.Config.{
  NetServiceErr, success, illegal_recv_packet, be_closed, recv_queue_full, is_success,
}

-- What SplitPacket asks of the service: a block of the receive pool of state `P` (`none` is the null
-- pointer), and the return code of OnReceived, whose effect is on the application's state `W`.
pub record RecvOps (P W : Type 0) : Type 0 where
  pub alloc_recv_packet : P → Option (List ℕ) × P
  pub on_received : W → List ℕ → ℕ × W

pub record RecvConfig : Type 0 where
  pub max_packet_size : ℕ
  pub packet_size_offset : ℕ

-- mRecvPacketBuffer, mRecvBytes, and the states behind the interface.
pub record RecvState (P W : Type 0) : Type 0 where
  pub packet_buffer : Option (List ℕ)
  pub recv_bytes : ℕ
  pub pool : P
  pub world : W

-- What the inner loop leaves behind.
pub record Drained (W : Type 0) : Type 0 where
  pub ret : NetServiceErr
  pub block : List ℕ
  pub bytes : ℕ
  pub world : W

-- memcpy(&packetSize, block + off, sizeof(int)), least byte first. The value is the bit pattern of
-- the int: it is negative from 2 ^ 31 on.
unfoldable pub read_int : List ℕ → ℕ → ℕ
read_int block off =
    get_or block off 0
    + 256 * get_or block (off + 1) 0
    + 65536 * get_or block (off + 2) 0
    + 16777216 * get_or block (off + 3) 0

-- packetSize < 0 || packetSize < sizeof(int) || packetSize > mMaxPacketSize
unfoldable pub is_illegal_size : RecvConfig → ℕ → Bool
is_illegal_size cfg size = leb (2 ^ 31) size || ltb size 4 || ltb cfg.max_packet_size size

unfoldable pub shift_block : List ℕ → ℕ → ℕ → List ℕ
shift_block block size left = if ltb 0 left then move_front block size left else block

module _ {P W : Type 0} (ops : RecvOps P W) (cfg : RecvConfig) where
  open ops use {alloc_recv_packet, on_received}
  open cfg use {max_packet_size, packet_size_offset}

  -- The inner `while (true)`, on fuel: each round takes a packet of at least four bytes.
  unfoldable pub drain_buffer : ℕ → List ℕ → ℕ → W → Option (Drained W)
  unfolding is_illegal_size shift_block
  drain_buffer zero block bytes w = none
  drain_buffer (suc fuel) block bytes w =
      let size : ℕ = read_int block packet_size_offset in
      let reply = on_received w (take size block) in
      let rest = drain_buffer fuel (shift_block block size (bytes - size)) (bytes - size) reply.1 in
      if ltb bytes (packet_size_offset + 4)
      then some (record { ret = success; block = block; bytes = bytes; world = w })
      else if is_illegal_size cfg size
      then some (record { ret = illegal_recv_packet; block = block; bytes = bytes; world = w })
      else if ltb bytes size
      then some (record { ret = success; block = block; bytes = bytes; world = w })
      else if reply.0 == 0
      then rest
      else some (record { ret = be_closed; block = block; bytes = bytes; world = reply.1 })

  -- The buffer to copy into: the one at hand, or a fresh one with mRecvBytes = 0.
  unfoldable pub fetch_buffer : RecvState P W → Option (List ℕ) × RecvState P W
  fetch_buffer s = elim s.packet_buffer [
    | some block ↦ (some block, s)
    | none ↦
        let (o, p) = alloc_recv_packet s.pool in
        elim o [
          | none ↦ (none, record s { pool = p })
          | some block ↦
              (some block, record s { packet_buffer = some block; recv_bytes = 0; pool = p })
        ]
  ]

  -- min(leftSize, mMaxPacketSize - mRecvBytes); where the int difference is negative this is 0, and
  -- the source rejects both.
  abbrev pub copy_size : List ℕ → ℕ → ℕ
  copy_size chunk bytes = min (length chunk) (max_packet_size - bytes)

  abbrev pub stored : RecvState P W → Drained W → RecvState P W
  stored s d = record s { packet_buffer = some d.block; recv_bytes = d.bytes; world = d.world }

  -- Copies what fits of the chunk behind the bytes at hand, and runs the inner loop. The second
  -- component is the data that is left.
  unfoldable pub copy_chunk :
      List ℕ → List ℕ → RecvState P W → Option (NetServiceErr × List ℕ × RecvState P W)
  copy_chunk block chunk s =
      let n = copy_size chunk s.recv_bytes in
      let drained =
        drain_buffer (suc (s.recv_bytes + n)) (write_at block s.recv_bytes (take n chunk))
          (s.recv_bytes + n) s.world in
      if n == 0
      then some (illegal_recv_packet, chunk, s)
      else elim drained [ none ↦ none | some d ↦ some (d.ret, drop n chunk, stored s d) ]

  -- One round of the outer loop.
  unfoldable pub split_round :
      List ℕ → RecvState P W → Option (NetServiceErr × List ℕ × RecvState P W)
  split_round chunk s₀ =
      let (o, s) = fetch_buffer s₀ in
      elim o [ none ↦ some (recv_queue_full, chunk, s) | some block ↦ copy_chunk block chunk s ]

  -- The outer `while (leftSize > 0)`, on fuel: each round takes at least one byte.
  unfoldable pub split_loop : ℕ → List ℕ → RecvState P W → Option (NetServiceErr × RecvState P W)
  split_loop zero chunk s = none
  split_loop (suc fuel) [] s = some (success, s)
  split_loop (suc fuel) (x ∷ xs) s = elim (split_round (x ∷ xs) s) [
    | none ↦ none
    | some (ret, left, s') ↦ elim (is_success ret) [
      | true ↦ split_loop fuel left s'
      | false ↦ some (ret, s')
    ]
  ]

  -- SplitPacket(pData, dataLen). `Refine` shows that the fuel is enough.
  unfoldable pub split_packet : List ℕ → RecvState P W → Option (NetServiceErr × RecvState P W)
  split_packet chunk s = split_loop (suc (length chunk)) chunk s
