-- ===== src/Client/Life/Handlers.antt =====
-- Netlib/TcpClient.cpp, OnCompleteOperation: a completion keeps what is known of the connection.
use iocp_netlib.Base.{
  ℕ, ◌+◌, ◌^◌, ◌<◌, ◌≡◌, refl, sym, subst, ◌≢◌, ◌⊎◌, inl, inr, Bool, true, false, [], ◌∷◌, ◌++◌,
  arith, length, if◌then◌else◌, ◌==◌, length-append, Bool-cases, ==_iff,
}
use iocp_netlib.Config.{
  NetServiceErr, success, is_success, remote_disconnect, recv_failed, be_closed, send_not_complete,
}
use iocp_netlib.Client.{
  TcpClient, Pools, Session, IoContext, OpType, increase_io_count, decrease_io_count, op_recv,
  op_send, op_timeout, op_closed,
}
use iocp_netlib.Client.Post.{post_recv, recv_context}
use iocp_netlib.Client.Complete.{
  Splitter, done_operation, failed_operation, on_recv_completion, on_send_completion,
}
use iocp_netlib.Client.Life.{
  recvs, is_recv, is_served, AllServed-append, recvs-append, Told, Told-keep, IsBusy,
}
use iocp_netlib.Client.Life.Steps.{IsOpen}

-- What a handler leaves to the end of OnCompleteOperation.
abbrev pub Handled : NetServiceErr × Session → Type 0
Handled r = ((r.0 ≡ success) × IsBusy r.1) ⊎ ((is_success r.0 ≡ false) × IsOpen r.1)

-- Only the pools change.
IsOpen-pools : (s : Session) (p : Pools) → IsOpen s → IsOpen (record s { pools = p })
IsOpen-pools s p b = record {
  counted = b.counted;
  short = b.short;
  once = b.once;
  served = b.served;
  referenced = b.referenced;
  told = b.told;
  known = b.known;
}

IsBusy-pools : (s : Session) (p : Pools) → IsBusy s → IsBusy (record s { pools = p })
IsBusy-pools s p b = record {
  counted = b.counted;
  short = b.short;
  once = b.once;
  served = b.served;
  referenced = b.referenced;
  told = b.told;
  known = b.known;
}

after_recv : TcpClient → TcpClient
after_recv c = record (increase_io_count c) { recv_op = op_recv }

module _ (s : Session) (b : IsOpen s) (none_left : recvs s.io ≡ 0)
    (room : length s.io + 1 < 2 ^ 31) where
  one_more : recvs (s.io ++ (recv_context ∷ [])) ≡ 1
  one_more = omega (arith, none_left, recvs-append s.io (recv_context ∷ []))

  posted-IsBusy : IsBusy (post_recv true s).1
  unfolding post_recv after_recv
  posted-IsBusy = record {
    counted = omega (arith, b.counted, b.short, length-append s.io (recv_context ∷ []));
    short = omega (arith, room, length-append s.io (recv_context ∷ []));
    once = omega (arith, one_more);
    served = AllServed-append s.io _ b.served (refl, tt);
    referenced = b.referenced;
    told =
        subst (λ n. Told s.client.conn_state (after_recv s.client) n s.events) (sym one_more)
          (Told-keep s.client.conn_state s.client (after_recv s.client) 1 s.events refl refl
            b.told);
    known = b.known;
  }

  refused-IsOpen : IsOpen (post_recv false s).1
  unfolding post_recv
  refused-IsOpen = record {
    counted = omega (arith, b.counted, b.short);
    short = b.short;
    once = b.once;
    served = b.served;
    referenced = b.referenced;
    told =
        Told-keep s.client.conn_state s.client
          (decrease_io_count (record (increase_io_count s.client) { recv_op = op_recv })) 1 s.events
          refl refl b.told;
    known = b.known;
  }

module _ (split : Splitter) (x : IoContext) (n now : ℕ) (taken : Bool) (s : Session) (b : IsOpen s)
    (room : length s.io + 1 < 2 ^ 31) where
  received : Session
  received =
      let r = split s.client s.pools.recv_packets n in
      record s {
        client = record s.client { recv_bytes = r.bytes; recv_packet_buffer = r.buffer };
        pools = record s.pools { recv_packets = r.pool };
      }

  received-IsOpen : IsOpen received
  unfolding received
  received-IsOpen = record {
    counted = b.counted;
    short = b.short;
    once = b.once;
    served = b.served;
    referenced = b.referenced;
    told = Told-keep s.client.conn_state s.client _ 1 s.events refl refl b.told;
    known = b.known;
  }

  recv_zero : n ≡ 0 → on_recv_completion split n taken s ≡ (remote_disconnect, s)
  unfolding on_recv_completion
  recv_zero e = ground (arith, e)

  recv_bad :
      n ≢ 0
      → is_success (split s.client s.pools.recv_packets n).ret ≡ false
      → on_recv_completion split n taken s ≡ ((split s.client s.pools.recv_packets n).ret, received)
  unfolding on_recv_completion received
  recv_bad ne e = ground (arith, ne, e)

  recv_good :
      n ≢ 0
      → is_success (split s.client s.pools.recv_packets n).ret ≡ true
      → on_recv_completion split n taken s ≡ (
          if taken
          then (success, (post_recv true received).1)
          else (recv_failed, (post_recv false received).1))
  unfolding on_recv_completion received post_recv
  recv_good ne e = ground (arith, ne, e)

  -- After a completed receive no other one is in flight.
  recv-Handled : recvs s.io ≡ 0 → Handled (on_recv_completion split n taken s)
  unfolding received
  recv-Handled none_left = elim (Bool-cases (n == 0)) [
    | inl z ↦ subst Handled (sym (recv_zero ((==_iff n 0).0 z))) (inr (refl, b))
    | inr nz ↦
        let ne : n ≢ 0 = ground (arith, nz) in
        elim (Bool-cases (is_success (split s.client s.pools.recv_packets n).ret)) [
          | inr bad ↦ subst Handled (sym (recv_bad ne bad)) (inr (bad, received-IsOpen))
          | inl good ↦ subst Handled (sym (recv_good ne good)) (by_post taken)
        ]
  ]
    where
      by_post :
          (t : Bool)
          → Handled (
              if t
              then (success, (post_recv true received).1)
              else (recv_failed, (post_recv false received).1))
      by_post true = inl (refl, posted-IsBusy received received-IsOpen none_left room)
      by_post false = inr (refl, refused-IsOpen received received-IsOpen none_left room)

  open-IsBusy : Told s.client.conn_state s.client (recvs s.io) s.events → IsBusy s
  open-IsBusy told = record {
    counted = b.counted;
    short = b.short;
    once = b.once;
    served = b.served;
    referenced = b.referenced;
    told = told;
    known = b.known;
  }

  sent : Pools
  sent = (on_send_completion x n s).1.pools

  send_cases :
      (on_send_completion x n s ≡ (success, record s { pools = sent }))
      ⊎ ((err : NetServiceErr) × (is_success err ≡ false)
          × (on_send_completion x n s ≡ (err, record s { pools = sent })))
  unfolding on_send_completion sent
  send_cases = elim (Bool-cases (n == x.len)) [
    | inr e ↦ inr (send_not_complete, refl, rw e refl)
    | inl e ↦ elim (Bool-cases s.client.close_after_send) [
      | inl k ↦ inr (be_closed, refl, rw (e, k) refl)
      | inr k ↦ inl (rw (e, k) refl)
    ]
  ]

  send-Handled :
      Told s.client.conn_state s.client (recvs s.io) s.events → Handled (on_send_completion x n s)
  send-Handled told = elim send_cases [
    | inl run ↦ subst Handled (sym run) (inl (refl, IsBusy-pools s sent (open-IsBusy told)))
    | inr (err, ne, run) ↦ subst Handled (sym run) (inr (ne, IsOpen-pools s sent b))
  ]

  pub done-Handled :
      (t : OpType)
      → x.operation_type ≡ t
      → is_served t ≡ true
      → (is_recv t ≡ true → recvs s.io ≡ 0)
      → (is_recv t ≡ false → Told s.client.conn_state s.client (recvs s.io) s.events)
      → Handled (done_operation split x n taken s)
  unfolding done_operation on_send_completion
  done-Handled op_recv e v none_left told = rw e (recv-Handled (none_left refl))
  done-Handled op_send e v none_left told = rw e (send-Handled (told refl))
  done-Handled op_timeout e v none_left told = rw e (inr (refl, IsOpen-pools s _ b))
  done-Handled op_closed e v none_left told = rw e (inr (refl, IsOpen-pools s _ b))
  done-Handled _ e v none_left told = absurd (cc v)

  pub failed-Handled :
      (t : OpType)
      → x.operation_type ≡ t
      → is_served t ≡ true
      → Handled (failed_operation x taken s)
  unfolding failed_operation
  failed-Handled op_recv e v = rw e (inr (refl, b))
  failed-Handled op_send e v = rw e (inr (refl, IsOpen-pools s _ b))
  failed-Handled op_timeout e v = rw e (inr (refl, b))
  failed-Handled op_closed e v = rw e (inr (refl, b))
  failed-Handled _ e v = absurd (cc v)
