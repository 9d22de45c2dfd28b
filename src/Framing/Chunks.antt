-- ===== src/Framing/Chunks.antt =====
-- Netlib/TcpClient.cpp, SplitPacket called for one receive after another: how the network cuts the
-- stream into chunks does not show.
use iocp_netlib.Base.{
  ℕ, ◌+◌, ◌^◌, ◌≤◌, ◌<◌, ◌≡◌, refl, sym, ap, subst, ◌∙◌, ◌≢◌, inl, inr, true, false, Option, none,
  some, List, [], ◌∷◌, ◌++◌, append_assoc, append-nil, arith, length, concat, Bool-cases,
}
use iocp_netlib.Config.{NetServiceErr, success, is_success, eq_success, ne_success}
use iocp_netlib.Framing.{RecvOps, RecvConfig, RecvState, split_packet}
use iocp_netlib.Framing.Stream.{Frames, Frames-append, Frames-append_error, Frames-unique}
use iocp_netlib.Framing.Promise.{IsReady, SplitsTo, pending}
use iocp_netlib.Framing.Refine.{split_packet-Outcome}

-- OnRecvCompletion for each chunk in turn, up to the first error.
unfoldable pub feed :
    {P W : Type 0}
    → RecvOps P W
    → RecvConfig
    → List (List ℕ)
    → RecvState P W
    → Option (NetServiceErr × RecvState P W)
feed ops cfg [] s = some (success, s)
feed ops cfg (c ∷ cs) s = elim (split_packet ops cfg c s) [
  | none ↦ none
  | some (ret, s') ↦ elim (is_success ret) [ true ↦ feed ops cfg cs s' | false ↦ some (ret, s') ]
]

module _ {P W : Type 0} (ops : RecvOps P W) (cfg : RecvConfig) (c : List ℕ) (cs : List (List ℕ))
    (s s₁ : RecvState P W) (ret : NetServiceErr)
    (run : split_packet ops cfg c s ≡ some (ret, s₁)) where
  feed_error : is_success ret ≡ false → feed ops cfg (c ∷ cs) s ≡ some (ret, s₁)
  unfolding feed
  feed_error bad = rw (feed, run, bad)

  feed_next : is_success ret ≡ true → feed ops cfg (c ∷ cs) s ≡ feed ops cfg cs s₁
  unfolding feed
  feed_next good = rw (feed, run, good)

-- The receive pool hands out blocks of mMaxPacketSize bytes.
abbrev pub HandsOut : {P W : Type 0} → RecvOps P W → RecvConfig → Type 0
HandsOut {P} ops cfg =
    (p : P)
    → (b : List ℕ) × ((ops.alloc_recv_packet p).0 ≡ some b) × (length b ≡ cfg.max_packet_size)

module _ {P W : Type 0} (ops : RecvOps P W) (cfg : RecvConfig)
    (fits_int : cfg.max_packet_size < 2 ^ 31)
    (room : cfg.packet_size_offset + 4 ≤ cfg.max_packet_size) (supply : HandsOut ops cfg) where
  open ops use {alloc_recv_packet, on_received}

  alloc_full :
      (p : P) (b : List ℕ) → (alloc_recv_packet p).0 ≡ some b → length b ≡ cfg.max_packet_size
  alloc_full p b e = ground (arith, supply p)

  split_packet-SplitsTo :
      (s : RecvState P W) (chunk : List ℕ)
      → IsReady ops cfg s
      → (ret : NetServiceErr) × (s' : RecvState P W) × (split_packet ops cfg chunk s
          ≡ some (ret, s'))
        × SplitsTo ops cfg s chunk ret s'
  split_packet-SplitsTo s chunk ready =
      let (ret, s', run, out) =
        split_packet-Outcome ops cfg fits_int room alloc_full s chunk ready in
      elim out [
        | inl v ↦ (ret, s', run, v)
        | inr full ↦ absurd (ground (arith, full.no_block, supply s.pool))
      ]

  -- What receiving some chunks one after another leaves behind.
  pub record FedTo (s : RecvState P W) (stream : List ℕ) (ret : NetServiceErr) (s' : RecvState P W)
      : Type 0 where
    pub unread : List ℕ
    pub cut :
        Frames on_received cfg (pending s ++ stream) s.world ret (pending s' ++ unread) s'.world
    pub ready : ret ≡ success → (unread ≡ []) × IsReady ops cfg s'

  after_error :
      (s : RecvState P W) (c stream : List ℕ) (ret : NetServiceErr) (s' : RecvState P W)
      → ret ≢ success
      → SplitsTo ops cfg s c ret s'
      → FedTo s (c ++ stream) ret s'
  after_error s c stream ret s' ne v = record {
    unread = v.unread ++ stream;
    cut = rw (← append_assoc, ← append_assoc) (Frames-append_error on_received cfg stream ne v.cut);
    ready = λ e. absurd (ne e);
  }

  after_success :
      (s s₁ s' : RecvState P W) (c stream : List ℕ) (ret : NetServiceErr)
      → SplitsTo ops cfg s c success s₁
      → FedTo s₁ stream ret s'
      → FedTo s (c ++ stream) ret s'
  after_success s s₁ s' c stream ret v f = record {
    unread = f.unread;
    cut =
        rw (← append_assoc)
          (Frames-append on_received cfg stream (rw ((v.ready refl).0, append-nil) at v.cut) f.cut);
    ready = f.ready;
  }

  pub feed-FedTo :
      (chunks : List (List ℕ)) (s : RecvState P W)
      → IsReady ops cfg s
      → (ret : NetServiceErr) × (s' : RecvState P W) × (feed ops cfg chunks s ≡ some (ret, s'))
        × FedTo s (concat chunks) ret s'
  unfolding feed
  feed-FedTo [] s ready = (
    success,
    s,
    refl,
    record { unread = []; cut = rw append-nil ready.stuck; ready = λ _. (refl, ready) },
  )
  feed-FedTo (c ∷ cs) s ready =
      let (ret, s₁, run, v) = split_packet-SplitsTo s c ready in
      elim (Bool-cases (is_success ret)) [
        | inr bad ↦ (
          ret,
          s₁,
          feed_error ops cfg c cs s s₁ ret run bad,
          after_error s c (concat cs) ret s₁ (ne_success ret bad) v,
        )
        | inl good ↦
            let v' : SplitsTo ops cfg s c success s₁ =
              subst (λ z. SplitsTo ops cfg s c z s₁) (eq_success ret good) v in
            let (ret', s', run', f) = feed-FedTo cs s₁ (v'.ready refl).1 in
            (
              ret',
              s',
              feed_next ops cfg c cs s s₁ ret run good ∙ run',
              after_success s s₁ s' c (concat cs) ret' v' f,
            )
      ]

  -- Between two calls, when the receive pool always hands out a block, so that NSE_RECV_QUEUE_FULL does
  -- not occur, and the length field ends within mMaxPacketSize, which is below 2 ^ 31: whatever the chunks
  -- are, the code and the application's state after receiving them depend only on the stream that they
  -- make up, and so do the bytes held back after the code 0.
  pub feed_same_stream :
      (chunks chunks' : List (List ℕ)) (s : RecvState P W)
      → IsReady ops cfg s
      → concat chunks ≡ concat chunks'
      → (ret : NetServiceErr) × (s₁ : RecvState P W) × (s₂ : RecvState P W) × (feed ops cfg chunks s
          ≡ some (ret, s₁))
        × (feed ops cfg chunks' s ≡ some (ret, s₂))
        × (s₁.world ≡ s₂.world)
        × (ret ≡ success → pending s₁ ≡ pending s₂)
  feed_same_stream chunks chunks' s ready same =
      let (ret, s₁, run, f) = feed-FedTo chunks s ready in
      let (ret', s₂, run', f') = feed-FedTo chunks' s ready in
      let (e, r, w) = Frames-unique on_received cfg f.cut (rw (← same) at f'.cut) in
      (
        ret,
        s₁,
        s₂,
        run,
        rw e run',
        w,
        λ ok.
            sym (append-nil (pending s₁))
            ∙ ap (◌++◌ (pending s₁)) (sym (f.ready ok).0)
            ∙ r
            ∙ ap (◌++◌ (pending s₂)) (f'.ready (sym e ∙ ok)).0
            ∙ append-nil (pending s₂),
      )
