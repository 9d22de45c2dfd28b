-- ===== src/Http/Split.antt =====
-- Netlib/TcpClientHttp.cpp, SplitHttpPacket: the received bytes are cut into requests. The receive pool
-- and OnReceived are the interface of Framing. ParseHttpHeaders reads the receive block as a C string,
-- and goes on in the memory behind the block, `beyond`, when there is no zero byte in it.
use iocp_netlib.Base.{
  ℕ, zero, suc, ◌+◌, ◌-◌, ◌%◌, ◌^◌, min, Bool, true, false, ◌||◌, Option, none, some, List, [], ◌∷◌,
  ◌++◌, length, take, drop, ltb, leb, ◌==◌, if◌then◌else◌, write_at,
}
use iocp_netlib.Config.{
  NetServiceErr, success, illegal_recv_packet, be_closed, recv_queue_full, is_success,
}
use iocp_netlib.Framing.{RecvOps, RecvConfig, RecvState, shift_block, fetch_buffer}
use iocp_netlib.Http.{parse_http_headers}
use iocp_netlib.Http.Fields.{get_content_length, is_connection_close}

-- The bytes before the terminator.
abbrev pub c_string : List ℕ → List ℕ
c_string [] = []
c_string (c ∷ cs) = let rest = c_string cs in if c == 0 then [] else (c ∷ rest)

-- The fields of the client that SplitHttpPacket writes: the receive buffer, mCloseAfterSend, and the
-- code of SetDisconnect.
pub record HttpState (P W : Type 0) : Type 0 where
  pub recv : RecvState P W
  pub close_after_send : Bool
  pub disconnect : Option NetServiceErr

-- What the inner loop leaves behind.
pub record HttpDrained (W : Type 0) : Type 0 where
  pub ret : NetServiceErr
  pub block : List ℕ
  pub bytes : ℕ
  pub world : W
  pub close : Bool

-- (int)(headerSize + contentLength)
unfoldable pub packet_size : ℕ → ℕ → ℕ
packet_size header_size content = (header_size + content) % 2 ^ 32

-- The tests in front of OnReceived: the code with which the inner loop ends, or none to go on.
unfoldable pub stops_at : ℕ → ℕ → ℕ → ℕ → Option NetServiceErr
stops_at max_packet_size content size bytes =
    if leb (2 ^ 31) content
    then some illegal_recv_packet
    else if size == 0 || leb (2 ^ 31) size || ltb max_packet_size size
    then some illegal_recv_packet
    else if ltb bytes size
    then some success
    else none

module _ {P W : Type 0} (ops : RecvOps P W) (max_packet_size : ℕ) (beyond : List ℕ) where
  open ops use {on_received}

  -- What fetch_buffer knows of the service; SplitHttpPacket has no mPacketSizeOffset.
  abbrev pub config : RecvConfig
  config = record { max_packet_size = max_packet_size; packet_size_offset = 0 }

  abbrev pub ended : NetServiceErr → List ℕ → ℕ → W → Bool → Option (HttpDrained W)
  ended ret block bytes w close =
      some (record { ret = ret; block = block; bytes = bytes; world = w; close = close })

  -- The inner `while (true)`, on fuel: each round takes a packet of at least one byte.
  unfoldable pub http_drain : ℕ → List ℕ → ℕ → W → Bool → Option (HttpDrained W)
  http_drain zero block bytes w close = none
  http_drain (suc fuel) block bytes w close =
      let text = c_string (block ++ beyond) in
      elim (parse_http_headers text) [
        | none ↦ none
        | some none ↦ ended success block bytes w close
        | some (some (hs, header_size)) ↦
            let size = packet_size header_size (get_content_length text hs) in
            let reply = on_received w (take size block) in
            let rest =
              http_drain fuel (shift_block block size (bytes - size)) (bytes - size) reply.1
                (is_connection_close text hs) in
            elim (stops_at max_packet_size (get_content_length text hs) size bytes) [
              | some ret ↦ ended ret block bytes w close
              | none ↦ if reply.0 == 0 then rest else ended be_closed block bytes reply.1 close
            ]
      ]

  abbrev pub http_stored : HttpState P W → HttpDrained W → HttpState P W
  http_stored s d = record {
    recv = record s.recv { packet_buffer = some d.block; recv_bytes = d.bytes; world = d.world };
    close_after_send = d.close;
    disconnect = elim d.ret [ be_closed ↦ some be_closed | _ ↦ s.disconnect ];
  }

  -- Copies what fits of the chunk behind the bytes at hand, and runs the inner loop. The second
  -- component is the data that is left.
  unfoldable pub http_copy :
      List ℕ → List ℕ → HttpState P W → Option (NetServiceErr × List ℕ × HttpState P W)
  http_copy block chunk s =
      let bytes = s.recv.recv_bytes in
      let n = min (length chunk) (max_packet_size - bytes) in
      let drained =
        http_drain (suc (bytes + n)) (write_at block bytes (take n chunk)) (bytes + n) s.recv.world
          s.close_after_send in
      if n == 0
      then some (illegal_recv_packet, chunk, s)
      else (elim drained [ none ↦ none | some d ↦ some (d.ret, drop n chunk, http_stored s d) ])

  unfoldable pub http_fetched :
      List ℕ
      → HttpState P W
      → Option (List ℕ) × RecvState P W
      → Option (NetServiceErr × List ℕ × HttpState P W)
  http_fetched chunk s (none, recv) = some (recv_queue_full, chunk, record s { recv = recv })
  http_fetched chunk s (some block, recv) = http_copy block chunk (record s { recv = recv })

  -- One round of the outer loop.
  unfoldable pub http_round :
      List ℕ → HttpState P W → Option (NetServiceErr × List ℕ × HttpState P W)
  http_round chunk s = http_fetched chunk s (fetch_buffer ops config s.recv)

  -- The outer `while (leftSize > 0)`, on fuel: each round takes at least one byte.
  unfoldable pub http_loop : ℕ → List ℕ → HttpState P W → Option (NetServiceErr × HttpState P W)
  http_loop zero chunk s = none
  http_loop (suc fuel) [] s = some (success, s)
  http_loop (suc fuel) (x ∷ xs) s = elim (http_round (x ∷ xs) s) [
    | none ↦ none
    | some (ret, left, s') ↦ elim (is_success ret) [
      | true ↦ http_loop fuel left s'
      | false ↦ some (ret, s')
    ]
  ]

  unfoldable pub split_http_packet : List ℕ → HttpState P W → Option (NetServiceErr × HttpState P W)
  split_http_packet chunk s = http_loop (suc (length chunk)) chunk s
