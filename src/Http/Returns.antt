-- ===== src/Http/Returns.antt =====
-- Netlib/TcpClientHttp.cpp, SplitHttpPacket: it returns, and stays within its buffer.
use iocp_netlib.Base.{
  ℕ, zero, suc, ◌+◌, ◌-◌, ◌≤◌, ◌<◌, ◌≡◌, refl, sym, ap, subst, inl, inr, min, true, false, Option,
  none, some, List, [], ◌∷◌, arith, length, take, drop, ◌==◌, Bool-cases, Option-cases, write_at,
  length-write_at, length-take, length-drop,
}
use iocp_netlib.Config.{NetServiceErr, success, illegal_recv_packet, recv_queue_full, is_success}
use iocp_netlib.Framing.{RecvOps, RecvConfig, RecvState, fetch_buffer}
use iocp_netlib.Http.Split.{
  HttpState, http_stored, http_copy, http_fetched, config, http_round, http_loop, split_http_packet,
}
use iocp_netlib.Http.Drained.{http_drain-Ended}

unwrap : {xs ys : List ℕ} → some xs ≡ some ys → xs ≡ ys
unwrap e = ap (λ o. elim o [ none ↦ [] | some l ↦ l ]) e

positive : (n : ℕ) → (n == 0) ≡ false → 0 < n
positive n h = ground arith

module _ {P W : Type 0} (ops : RecvOps P W) (max_packet_size : ℕ) (beyond : List ℕ) where
  -- The receive buffer, when there is one, has room for a packet of the maximum, and the bytes in it are
  -- no more than that.
  abbrev pub IsWithin : RecvState P W → Type 0
  IsWithin s =
      (block : List ℕ)
      → s.packet_buffer ≡ some block
      → (max_packet_size ≤ length block) × (s.recv_bytes ≤ max_packet_size)

  -- The blocks of the receive pool are large enough.
  abbrev pub Roomy : Type 0
  Roomy =
      (p : P) (block : List ℕ)
      → (ops.alloc_recv_packet p).0 ≡ some block
      → max_packet_size ≤ length block

  abbrev Rounded : List ℕ → Option (NetServiceErr × List ℕ × HttpState P W) → Type 0
  Rounded chunk o =
      (ret : NetServiceErr) × (left : List ℕ) × (s : HttpState P W) × (o ≡ some (ret, left, s))
      × IsWithin s.recv
      × (is_success ret ≡ true → length left < length chunk)

  http_copy-Rounded :
      (block chunk : List ℕ) (s : HttpState P W)
      → max_packet_size ≤ length block
      → s.recv.recv_bytes ≤ max_packet_size
      → IsWithin s.recv
      → Rounded chunk (http_copy ops max_packet_size beyond block chunk s)
  unfolding http_copy
  http_copy-Rounded block chunk s room few within =
      let bytes : ℕ = s.recv.recv_bytes in
      let n : ℕ = min (length chunk) (max_packet_size - bytes) in
      let copied : List ℕ = write_at block bytes (take n chunk) in
      let len : length (take n chunk) ≡ n = omega (arith, length-take n chunk) in
      let same : length copied ≡ length block =
        length-write_at block bytes (take n chunk) (omega (arith, len, room, few)) in
      elim (Bool-cases (n == 0)) [
        | inl full ↦
            (illegal_recv_packet, chunk, s, rw (http_copy, full) refl, within, λ ok. absurd cc)
        | inr more ↦
            let (d, run, len', le) =
              http_drain-Ended ops max_packet_size beyond (suc (bytes + n)) copied (bytes + n)
                s.recv.world s.close_after_send (omega arith) (omega (arith, same, room, few)) in
            (
              d.ret,
              drop n chunk,
              http_stored ops max_packet_size beyond s d,
              rw (http_copy, more, run) refl,
              λ block' e.
                  let same' : d.block ≡ block' = unwrap e in
                  (omega (arith, ap length same', len', same, room), omega (arith, le, few)),
              λ ok. omega (arith, length-drop n chunk, positive n more),
            )
      ]

  -- What the round finds in the receive buffer.
  abbrev Fetched : Option (List ℕ) × RecvState P W → Type 0
  Fetched (none, recv) = IsWithin recv
  Fetched (some block, recv) =
      (max_packet_size ≤ length block) × (recv.recv_bytes ≤ max_packet_size) × IsWithin recv

  module _ (cfg : RecvConfig) (s : RecvState P W) where
    held :
        (block : List ℕ) → s.packet_buffer ≡ some block → fetch_buffer ops cfg s ≡ (some block, s)
    unfolding fetch_buffer
    held block e = ground arith

    nothing_left :
        s.packet_buffer ≡ none
        → (ops.alloc_recv_packet s.pool).0 ≡ none
        → fetch_buffer ops cfg s ≡ (none, record s { pool = (ops.alloc_recv_packet s.pool).1 })
    unfolding fetch_buffer
    nothing_left e nothing = ground arith

    fetched :
        (block : List ℕ)
        → s.packet_buffer ≡ none
        → (ops.alloc_recv_packet s.pool).0 ≡ some block
        → fetch_buffer ops cfg s ≡ (
          some block,
          record s {
            packet_buffer = some block;
            recv_bytes = 0;
            pool = (ops.alloc_recv_packet s.pool).1;
          },
        )
    unfolding fetch_buffer
    fetched block e got = ground arith

    fetch_buffer-Fetched : Roomy → IsWithin s → Fetched (fetch_buffer ops cfg s)
    fetch_buffer-Fetched roomy within = elim (Option-cases s.packet_buffer) [
      | inr (block, e) ↦
          let (large, few) = within block e in
          subst Fetched (sym (held block e)) (large, few, within)
      | inl e ↦ elim (Option-cases (ops.alloc_recv_packet s.pool).0) [
        | inl nothing ↦
            subst Fetched (sym (nothing_left e nothing))
              (λ block e'. absurd (ground (arith, e, e')))
        | inr (block, got) ↦
            let large : max_packet_size ≤ length block = roomy s.pool block got in
            subst Fetched (sym (fetched block e got)) (
              large,
              omega arith,
              λ block' e'. (omega (arith, large, ap length (unwrap e')), omega arith),
            )
      ]
    ]

  http_fetched-Rounded :
      (chunk : List ℕ) (s : HttpState P W) (r : Option (List ℕ) × RecvState P W)
      → Fetched r
      → Rounded chunk (http_fetched ops max_packet_size beyond chunk s r)
  unfolding http_fetched
  http_fetched-Rounded chunk s (none, recv) within =
      (recv_queue_full, chunk, record s { recv = recv }, refl, within, λ ok. absurd cc)
  http_fetched-Rounded chunk s (some block, recv) (large, few, within) =
      http_copy-Rounded block chunk (record s { recv = recv }) large few within

  http_round-Rounded :
      (chunk : List ℕ) (s : HttpState P W)
      → Roomy
      → IsWithin s.recv
      → Rounded chunk (http_round ops max_packet_size beyond chunk s)
  unfolding http_round
  http_round-Rounded chunk s roomy within =
      let cfg : RecvConfig = config ops max_packet_size beyond in
      http_fetched-Rounded chunk s (fetch_buffer ops cfg s.recv)
        (fetch_buffer-Fetched cfg s.recv roomy within)

  http_loop-returns :
      (fuel : ℕ) (chunk : List ℕ) (s : HttpState P W)
      → length chunk < fuel
      → Roomy
      → IsWithin s.recv
      → (r : NetServiceErr × HttpState P W) × (http_loop ops max_packet_size beyond fuel chunk s
          ≡ some r)
        × IsWithin r.1.recv
  unfolding http_loop
  http_loop-returns zero chunk s enough roomy within = absurd (omega arith)
  http_loop-returns (suc fuel) [] s enough roomy within = ((success, s), refl, within)
  http_loop-returns (suc fuel) (x ∷ xs) s enough roomy within =
      let (ret, left, s', run, within', shorter_left) =
        http_round-Rounded (x ∷ xs) s roomy within in
      elim (Bool-cases (is_success ret)) [
        | inl ok ↦
            let (r, run', done) =
              http_loop-returns fuel left s' (omega (arith, shorter_left ok)) roomy within' in
            (r, rw (http_loop, run, ok) run', done)
        | inr bad ↦ ((ret, s'), rw (http_loop, run, bad) refl, within')
      ]

  -- SplitHttpPacket, for any bytes, any memory behind the receive block and any answers of the
  -- application, when the blocks of the receive pool have room for mMaxPacketSize bytes and the bytes
  -- at hand are no more than that: the call returns, and the bytes held back are at most
  -- mMaxPacketSize again, in a block with room for that.
  pub split_http_packet-returns :
      (chunk : List ℕ) (s : HttpState P W)
      → Roomy
      → IsWithin s.recv
      → (ret : NetServiceErr) × (s' : HttpState P W) × (split_http_packet ops max_packet_size beyond
            chunk s
          ≡ some (ret, s'))
        × IsWithin s'.recv
  unfolding split_http_packet
  split_http_packet-returns chunk s roomy within =
      let ((ret, s'), run, done) =
        http_loop-returns (suc (length chunk)) chunk s (omega arith) roomy within in
      (ret, s', run, done)
