-- ===== src/Framing/Refine.antt =====
-- Netlib/TcpClient.cpp, SplitPacket: a call, on every branch, against the stream of `Stream`.
use iocp_netlib.Base.{
  ℕ, suc, ◌+◌, ◌^◌, ◌≤◌, ◌<◌, ◌≡◌, refl, ◌∙◌, inl, inr, none, some, List, [], ◌∷◌, arith, length,
  Option-cases,
}
use iocp_netlib.Config.{NetServiceErr, success}
use iocp_netlib.Framing.{RecvOps, RecvConfig, RecvState, split_loop, split_packet}
use iocp_netlib.Framing.Stream.{no_size}
use iocp_netlib.Framing.Promise.{IsReady, SplitsTo, Outcome}
use iocp_netlib.Framing.Loop.{split_loop-SplitsTo, split_loop_full, split_loop_fresh}

module _ {P W : Type 0} (ops : RecvOps P W) (cfg : RecvConfig)
    (fits_int : cfg.max_packet_size < 2 ^ 31)
    (room : cfg.packet_size_offset + 4 ≤ cfg.max_packet_size)
    (alloc_full : (p : P) (b : List ℕ)
      → (ops.alloc_recv_packet p).0 ≡ some b
      → length b ≡ cfg.max_packet_size) where
  open ops use {alloc_recv_packet, on_received}

  Returns : RecvState P W → List ℕ → Type 0
  Returns s chunk =
      (ret : NetServiceErr) × (s' : RecvState P W) × (split_loop ops cfg (suc (length chunk)) chunk
          s
        ≡ some (ret, s'))
      × Outcome ops cfg s chunk ret s'

  module _ (s : RecvState P W) (ready : IsReady ops cfg s) (empty : s.packet_buffer ≡ none) where
    fresh : List ℕ → RecvState P W
    fresh block = record s {
      packet_buffer = some block;
      recv_bytes = 0;
      pool = (alloc_recv_packet s.pool).1;
    }

    fresh-IsReady :
        (block : List ℕ) → (alloc_recv_packet s.pool).0 ≡ some block → IsReady ops cfg (fresh block)
    unfolding fresh
    fresh-IsReady block e = record {
      room = (alloc_full s.pool block e, omega arith);
      stuck = no_size (omega arith);
    }

    of_fresh :
        (block chunk : List ℕ) (ret : NetServiceErr) (s' : RecvState P W)
        → SplitsTo ops cfg (fresh block) chunk ret s'
        → SplitsTo ops cfg s chunk ret s'
    unfolding fresh
    of_fresh block chunk ret s' v = record {
      unread = v.unread;
      cut = rw empty v.cut;
      ready = v.ready;
      kept = v.kept;
    }

    without_buffer : (chunk : List ℕ) → Returns s chunk
    unfolding Returns fresh split_loop
    without_buffer [] = (
      success,
      s,
      refl,
      inl (record {
        unread = [];
        cut = rw empty (no_size (omega arith));
        ready = λ _. (refl, ready);
        kept = rw empty tt;
      }),
    )
    without_buffer (x ∷ xs) = elim (Option-cases (alloc_recv_packet s.pool).0) [
      | inl e ↦ (
        _,
        _,
        split_loop_full ops cfg s empty x xs (length (x ∷ xs)) e,
        inr (record { no_buffer = empty; no_block = e; code = refl; unchanged = refl }),
      )
      | inr (block, e) ↦
          let (ret, s', run, v) =
            split_loop-SplitsTo ops cfg fits_int room (suc (length (x ∷ xs))) (x ∷ xs) block
              (fresh block) refl (fresh-IsReady block e) (omega arith) in
          (
            ret,
            s',
            split_loop_fresh ops cfg s empty x xs (length (x ∷ xs)) block e ∙ run,
            inl (of_fresh block (x ∷ xs) ret s' v),
          )
    ]

  -- SplitPacket always returns. Its inner loop and its outer loop end within the fuel, whatever the
  -- callback answers. Either a buffer was needed and the receive pool had none, and then the code is
  -- NSE_RECV_QUEUE_FULL and only the pool has changed; or the bytes held before followed by the new
  -- ones were cut as `Frames` says, with the code and the application's state that it gives and no
  -- byte lost, the buffer is a block of mMaxPacketSize bytes holding at most as many, and after the
  -- code 0 all the data has been read, there is room for a byte, and no whole packet is held back.
  pub split_packet-Outcome :
      (s : RecvState P W) (chunk : List ℕ)
      → IsReady ops cfg s
      → (ret : NetServiceErr) × (s' : RecvState P W) × (split_packet ops cfg chunk s
          ≡ some (ret, s'))
        × Outcome ops cfg s chunk ret s'
  unfolding split_packet Returns
  split_packet-Outcome s chunk ready = elim (Option-cases s.packet_buffer) [
    | inl empty ↦ without_buffer s ready empty chunk
    | inr (block, has) ↦
        let (ret, s', run, v) =
          split_loop-SplitsTo ops cfg fits_int room (suc (length chunk)) chunk block s has ready
            (omega arith) in
        (ret, s', run, inl v)
  ]
