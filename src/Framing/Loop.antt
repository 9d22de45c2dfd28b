-- ===== src/Framing/Loop.antt =====
-- Netlib/TcpClient.cpp, SplitPacket: the outer loop, over the buffer, cuts the stream as `Stream`
-- says.
use iocp_netlib.Base.{
  ℕ, zero, suc, ◌+◌, ◌^◌, ◌≤◌, ◌<◌, ◌≡◌, refl, sym, ap, subst, ◌∙◌, ◌≢◌, inl, inr, true, false,
  none, some, List, [], ◌∷◌, ◌++◌, append_assoc, append-nil, arith, length, take, drop, ◌==◌,
  Bool-cases, length-take, length-drop, take-append-drop, take-write_at, length-write_at, write_at,
}
use iocp_netlib.Config.{NetServiceErr, success, recv_queue_full, is_success, eq_success, ne_success}
use iocp_netlib.Framing.{
  RecvOps, RecvConfig, RecvState, Drained, drain_buffer, fetch_buffer, stored, copy_size,
  copy_chunk, split_round, split_loop,
}
use iocp_netlib.Framing.Stream.{Frames, Frames-append, Frames-append_error}
use iocp_netlib.Framing.Drain.{DrainsTo, drain_buffer-DrainsTo, length-rest-lt}
use iocp_netlib.Framing.Promise.{pending, IsReady, SplitsTo, Frames-rest}

module _ {P W : Type 0} (ops : RecvOps P W) (cfg : RecvConfig) where
  open ops use {alloc_recv_packet, on_received}
  open cfg use {max_packet_size, packet_size_offset}

  module _ (fits_int : max_packet_size < 2 ^ 31)
      (room : packet_size_offset + 4 ≤ max_packet_size) where
    -- One round, with a buffer at hand and data to copy.
    record RoundTo (block : List ℕ) (s : RecvState P W) (chunk : List ℕ)
        (r : NetServiceErr × List ℕ × RecvState P W) : Type 0 where
      read : List ℕ
      split : read ++ r.1 ≡ chunk
      progress : length r.1 < length chunk
      after : List ℕ
      buffer : r.2.packet_buffer ≡ some after
      size : length after ≡ max_packet_size
      within : r.2.recv_bytes ≤ max_packet_size
      cut :
          Frames on_received cfg
            (take s.recv_bytes block ++ read)
            s.world
            r.0
            (take r.2.recv_bytes after)
            r.2.world

    module _ (block : List ℕ) (s : RecvState P W) (x : ℕ) (xs : List ℕ)
        (full : length block ≡ max_packet_size) (below : s.recv_bytes < max_packet_size) where
      n : ℕ
      n = copy_size ops cfg (x ∷ xs) s.recv_bytes

      filled : List ℕ
      unfolding n
      filled = write_at block s.recv_bytes (take n (x ∷ xs))

      length-copied : length (take n (x ∷ xs)) ≡ n
      unfolding n
      length-copied = omega (arith, length-take n (x ∷ xs))

      length-filled : length filled ≡ max_packet_size
      unfolding n filled
      length-filled =
          length-write_at block s.recv_bytes (take n (x ∷ xs)) (omega (arith, length-copied)) ∙ full

      take-filled : take (s.recv_bytes + n) filled ≡ take s.recv_bytes block ++ take n (x ∷ xs)
      unfolding n filled
      take-filled =
          ap (λ (k : ℕ). take (s.recv_bytes + k) filled) (sym length-copied)
          ∙ take-write_at block s.recv_bytes (take n (x ∷ xs)) (omega arith)

      copy_chunk-RoundTo :
          (r : NetServiceErr × List ℕ × RecvState P W) × (copy_chunk ops cfg block (x ∷ xs) s
            ≡ some r)
          × RoundTo block s (x ∷ xs) r
      unfolding copy_chunk n filled
      copy_chunk-RoundTo = of (
          drain_buffer-DrainsTo ops cfg fits_int (suc (s.recv_bytes + n)) filled (s.recv_bytes + n)
            s.world (omega (arith, length-filled)) (omega arith))
        where
          positive : (n == 0) ≡ false
          positive = ground arith

          of :
              ((d : Drained W) × (drain_buffer ops cfg
                    (suc (s.recv_bytes + n))
                    filled
                    (s.recv_bytes + n)
                    s.world
                  ≡ some d)
                × DrainsTo ops cfg filled (s.recv_bytes + n) s.world d)
              → (r : NetServiceErr × List ℕ × RecvState P W) × (copy_chunk ops cfg block (x ∷ xs) s
                  ≡ some r)
                × RoundTo block s (x ∷ xs) r
          of (d, run, to) = (
            (d.ret, drop n (x ∷ xs), stored ops cfg s d),
            rw (positive, run),
            record {
              read = take n (x ∷ xs);
              split = take-append-drop n (x ∷ xs);
              progress = omega (arith, length-drop n (x ∷ xs));
              after = d.block;
              buffer = refl;
              size = to.same_length ∙ length-filled;
              within = omega (arith, to.within);
              cut = rw (← take-filled) to.cut;
            },
          )

    module _ (s : RecvState P W) (block chunk : List ℕ) (r : NetServiceErr × List ℕ × RecvState P W)
        (has : s.packet_buffer ≡ some block) (to : RoundTo block s chunk r) where
      pending_has : pending s ≡ take s.recv_bytes block
      pending_has = rw has

      pending_after : pending r.2 ≡ take r.2.recv_bytes to.after
      pending_after = rw to.buffer

      RoundTo-cut :
          Frames on_received cfg (pending s ++ to.read) s.world r.0 (pending r.2) r.2.world
      RoundTo-cut = rw (has, to.buffer) to.cut

      RoundTo-IsReady : r.0 ≡ success → IsReady ops cfg r.2
      RoundTo-IsReady e = record {
        room = rw to.buffer (
          to.size,
          omega (
            arith,
            length-take r.2.recv_bytes to.after,
            to.size,
            to.within,
            length-rest-lt room cut,
          ),
        );
        stuck = rw pending_after (Frames-rest ops cfg cut);
      }
        where
          cut :
              Frames on_received cfg
                (take s.recv_bytes block ++ to.read)
                s.world
                success
                (take r.2.recv_bytes to.after)
                r.2.world
          cut = rw e at to.cut

      whole : (pending s ++ to.read) ++ r.1 ≡ pending s ++ chunk
      whole = append_assoc (pending s) to.read r.1 ∙ ap (◌++◌ (pending s)) to.split

      -- A round that fails ends the call.
      fails : r.0 ≢ success → SplitsTo ops cfg s chunk r.0 r.2
      fails ne = record {
        unread = r.1;
        cut =
            subst (λ z. Frames on_received cfg z s.world r.0 (pending r.2 ++ r.1) r.2.world) whole
              (Frames-append_error on_received cfg r.1 ne RoundTo-cut);
        ready = λ e. absurd (ne e);
        kept = rw to.buffer (to.size, to.within);
      }

      -- A round that succeeds leaves the rest of the call to the rounds that follow.
      continues :
          (ret : NetServiceErr) (s' : RecvState P W)
          → r.0 ≡ success
          → SplitsTo ops cfg r.2 r.1 ret s'
          → SplitsTo ops cfg s chunk ret s'
      continues ret s' e v = record {
        unread = v.unread;
        cut =
            subst (λ z. Frames on_received cfg z s.world ret (pending s' ++ v.unread) s'.world)
              whole (Frames-append on_received cfg r.1 (rw e at RoundTo-cut) v.cut);
        ready = v.ready;
        kept = v.kept;
      }

    module _ (s : RecvState P W) (block : List ℕ) (has : s.packet_buffer ≡ some block) where
      room_of :
          IsReady ops cfg s → (length block ≡ max_packet_size) × (s.recv_bytes < max_packet_size)
      room_of ok = rw has at ok.room

      nothing_to_read : IsReady ops cfg s → SplitsTo ops cfg s [] success s
      nothing_to_read ok = record {
        unread = [];
        cut = rw append-nil ok.stuck;
        ready = λ _. (refl, ok);
        kept = rw has ((room_of ok).0, omega (arith, (room_of ok).1));
      }

      split_round-has :
          (chunk : List ℕ) → split_round ops cfg chunk s ≡ copy_chunk ops cfg block chunk s
      unfolding split_round fetch_buffer
      split_round-has chunk = ground arith

      split_loop_error :
          (fuel x : ℕ) (xs : List ℕ) (r : NetServiceErr × List ℕ × RecvState P W)
          → split_round ops cfg (x ∷ xs) s ≡ some r
          → is_success r.0 ≡ false
          → split_loop ops cfg (suc fuel) (x ∷ xs) s ≡ some (r.0, r.2)
      unfolding split_loop
      split_loop_error fuel x xs r run bad = rw (split_loop, run, bad)

      split_loop_next :
          (fuel x : ℕ) (xs : List ℕ) (r : NetServiceErr × List ℕ × RecvState P W)
          → split_round ops cfg (x ∷ xs) s ≡ some r
          → is_success r.0 ≡ true
          → split_loop ops cfg (suc fuel) (x ∷ xs) s ≡ split_loop ops cfg fuel r.1 r.2
      unfolding split_loop
      split_loop_next fuel x xs r run good = rw (split_loop, run, good)

    pub split_loop-SplitsTo :
        (fuel : ℕ) (chunk block : List ℕ) (s : RecvState P W)
        → s.packet_buffer ≡ some block
        → IsReady ops cfg s
        → length chunk < fuel
        → (ret : NetServiceErr) × (s' : RecvState P W) × (split_loop ops cfg fuel chunk s
            ≡ some (ret, s'))
          × SplitsTo ops cfg s chunk ret s'
    unfolding split_loop
    split_loop-SplitsTo zero chunk block s has ok m = absurd (omega arith)
    split_loop-SplitsTo (suc fuel) [] block s has ok m =
        (success, s, refl, nothing_to_read s block has ok)
    split_loop-SplitsTo (suc fuel) (x ∷ xs) block s has ok m =
        let (full, below) = room_of s block has ok in
        let (r, run, to) = copy_chunk-RoundTo block s x xs full below in
        let turn = split_round-has s block has (x ∷ xs) ∙ run in
        elim (Bool-cases (is_success r.0)) [
          | inr bad ↦ (
            r.0,
            r.2,
            split_loop_error s block has fuel x xs r turn bad,
            fails s block (x ∷ xs) r has to (ne_success r.0 bad),
          )
          | inl good ↦
              let e = eq_success r.0 good in
              let (ret, s', run', v) =
                split_loop-SplitsTo fuel r.1 to.after r.2 to.buffer
                  (RoundTo-IsReady s block (x ∷ xs) r has to e) (omega (arith, to.progress)) in
              (
                ret,
                s',
                split_loop_next s block has fuel x xs r turn good ∙ run',
                continues s block (x ∷ xs) r has to ret s' e v,
              )
        ]

  module _ (s : RecvState P W) (empty : s.packet_buffer ≡ none) where
    module _ (x : ℕ) (xs : List ℕ) (fuel : ℕ) where
      pub split_loop_full :
          (alloc_recv_packet s.pool).0 ≡ none
          → split_loop ops cfg (suc fuel) (x ∷ xs) s
            ≡ some (recv_queue_full, record s { pool = (alloc_recv_packet s.pool).1 })
      unfolding split_loop split_round fetch_buffer
      split_loop_full e = ground arith

      pub split_loop_fresh :
          (block : List ℕ)
          → (alloc_recv_packet s.pool).0 ≡ some block
          → split_loop ops cfg (suc fuel) (x ∷ xs) s
            ≡ split_loop ops cfg (suc fuel) (x ∷ xs) (record s {
              packet_buffer = some block;
              recv_bytes = 0;
              pool = (alloc_recv_packet s.pool).1;
            })
      unfolding split_loop split_round fetch_buffer
      split_loop_fresh block e = ground arith
