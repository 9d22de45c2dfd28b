-- ===== src/Framing/Promise.antt =====
-- Netlib/TcpClient.cpp, SplitPacket: what a call promises of the code and the state that it returns.
use iocp_netlib.Base.{ℕ, ◌≤◌, ◌<◌, ◌≡◌, ◌⊎◌, Option, none, some, List, [], ◌++◌, length, take}
use iocp_netlib.Config.{NetServiceErr, success, recv_queue_full}
use iocp_netlib.Framing.{RecvOps, RecvConfig, RecvState}
use iocp_netlib.Framing.Stream.{Frames, no_size, incomplete, accepted}

-- The received bytes that are not delivered yet.
abbrev pub pending_in : Option (List ℕ) → ℕ → List ℕ
pending_in none bytes = []
pending_in (some block) bytes = take bytes block

abbrev pub pending : {P W : Type 0} → RecvState P W → List ℕ
pending s = pending_in s.packet_buffer s.recv_bytes

-- The buffer has the pool's block size, and room for a byte.
abbrev pub HasRoom : RecvConfig → Option (List ℕ) → ℕ → Type 0
HasRoom cfg none bytes = Unit {0}
HasRoom cfg (some block) bytes =
    (length block ≡ cfg.max_packet_size) × (bytes < cfg.max_packet_size)

-- After a call that failed the buffer may be full.
abbrev pub HoldsBlock : RecvConfig → Option (List ℕ) → ℕ → Type 0
HoldsBlock cfg none bytes = Unit {0}
HoldsBlock cfg (some block) bytes =
    (length block ≡ cfg.max_packet_size) × (bytes ≤ cfg.max_packet_size)

module _ {P W : Type 0} (ops : RecvOps P W) (cfg : RecvConfig) where
  open ops use {alloc_recv_packet, on_received}
  open cfg use {max_packet_size, packet_size_offset}

  -- What is left of a stream that was cut without an error stays as it is.
  pub Frames-rest :
      {s rest : List ℕ} {w w' : W}
      → Frames on_received cfg s w success rest w'
      → Frames on_received cfg rest w' success rest w'
  Frames-rest (no_size h) = no_size h
  Frames-rest (incomplete h l p) = incomplete h l p
  Frames-rest (accepted h l p ok f) = Frames-rest f

  -- Between two calls: the buffer has room, and holds no whole packet.
  pub record IsReady (s : RecvState P W) : Type 0 where
    pub room : HasRoom cfg s.packet_buffer s.recv_bytes
    pub stuck : Frames on_received cfg (pending s) s.world success (pending s) s.world

  -- What a call promises of the code and the state that it returns.
  pub record SplitsTo (s : RecvState P W) (chunk : List ℕ) (ret : NetServiceErr)
      (s' : RecvState P W) : Type 0 where
    pub unread : List ℕ
    pub cut :
        Frames on_received cfg (pending s ++ chunk) s.world ret (pending s' ++ unread) s'.world
    pub ready : ret ≡ success → (unread ≡ []) × IsReady s'
    pub kept : HoldsBlock cfg s'.packet_buffer s'.recv_bytes

  -- The receive pool was empty when a buffer was needed: nothing but the pool has changed.
  pub record QueueFull (s : RecvState P W) (ret : NetServiceErr) (s' : RecvState P W) : Type 0 where
    pub no_buffer : s.packet_buffer ≡ none
    pub no_block : (alloc_recv_packet s.pool).0 ≡ none
    pub code : ret ≡ recv_queue_full
    pub unchanged : s' ≡ record s { pool = (alloc_recv_packet s.pool).1 }

  abbrev pub Outcome : RecvState P W → List ℕ → NetServiceErr → RecvState P W → Type 0
  Outcome s chunk ret s' = SplitsTo s chunk ret s' ⊎ QueueFull s ret s'
