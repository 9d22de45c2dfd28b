-- ===== src/Client/Life/Completion.antt =====
-- Netlib/TcpClient.cpp, OnCompleteOperation: a completed request leaves, and its handler keeps what is
-- known of the connection.
use iocp_netlib.Base.{
  ℕ, ◌+◌, ◌≡◌, refl, subst, inl, inr, Bool, true, false, List, ◌∷◌, ◌++◌, arith, length,
  if◌then◌else◌, length-append,
}
use iocp_netlib.Config.{NetServiceErr, is_success}
use iocp_netlib.Client.{
  Session, IoContext, ConnState, conn_connected, conn_closing, conn_closed, set_client,
  set_disconnect,
}
use iocp_netlib.Client.Post.{check_release}
use iocp_netlib.Client.Complete.{Splitter, on_complete_operation}
use iocp_netlib.Client.Life.{
  recvs, is_recv, AllServed, AllServed-append, AllServed-left, AllServed-right, recvs-append, Told,
  Told-keep, IsLive,
}
use iocp_netlib.Client.Life.Release.{check_release-IsLive}
use iocp_netlib.Client.Life.Steps.{IsOpen, set_disconnect-IsBusy}
use iocp_netlib.Client.Life.Handlers.{Handled, done-Handled, failed-Handled}

-- The end of OnCompleteOperation.
ended : NetServiceErr × Session → Session
ended r =
    check_release (if is_success r.0 then r.1 else set_client r.1 (set_disconnect r.0 r.1.client))

ended-IsLive : (r : NetServiceErr × Session) → Handled r → IsLive (ended r)
unfolding ended
ended-IsLive r (inl (e, b)) = rw e (check_release-IsLive r.1 b)
ended-IsLive r (inr (e, b)) = rw e (check_release-IsLive _ (set_disconnect-IsBusy r.1 b r.0))

module _ (s : Session) (live : IsLive s) (before after : List IoContext) (x : IoContext)
    (e : s.io ≡ before ++ (x ∷ after)) (known : s.registered ≡ true) where
  rest : List IoContext
  rest = before ++ after

  rest_lem :
      (length s.io ≡ length rest + 1)
      × (recvs s.io ≡ (if is_recv x.operation_type then 1 else 0) + recvs rest)
  unfolding rest
  rest_lem = rw e (
    omega (arith, length-append before (x ∷ after), length-append before after),
    omega (arith, recvs-append before (x ∷ after), recvs-append before after),
  )

  taken_out : ℕ → Session
  taken_out now = record s { client = record s.client { last_tick_time = now }; io = rest }

  served : AllServed (before ++ (x ∷ after))
  served = subst AllServed e live.served

  Told-one : (st : ConnState) → Told st s.client (recvs s.io) s.events → Told st s.client 1 s.events
  Told-one conn_connected h = (refl, h.1)
  Told-one conn_closing h = h
  Told-one conn_closed h = h

  taken_out-IsOpen : (now : ℕ) → IsOpen (taken_out now)
  unfolding taken_out rest
  taken_out-IsOpen now = record {
    counted = omega (arith, live.counted, rest_lem.0);
    short = omega (arith, live.short, rest_lem.0);
    once = omega (arith, live.once, rest_lem.1);
    served =
        AllServed-append before after (AllServed-left before (x ∷ after) served)
          (AllServed-right before (x ∷ after) served).1;
    referenced = live.referenced;
    told =
        Told-keep s.client.conn_state s.client (record s.client { last_tick_time = now }) 1 s.events
          refl refl (Told-one s.client.conn_state live.told);
    known = known;
  }

  other-Told :
      (now : ℕ)
      → is_recv x.operation_type ≡ false
      → Told s.client.conn_state (record s.client { last_tick_time = now }) (recvs rest) s.events
  other-Told now o =
      let count : recvs s.io ≡ recvs rest = ground (arith, rest_lem, o) in
      Told-keep s.client.conn_state s.client (record s.client { last_tick_time = now }) (recvs rest)
        s.events refl refl
        (subst (λ n. Told s.client.conn_state s.client n s.events) count live.told)

  none_left : is_recv x.operation_type ≡ true → recvs rest ≡ 0
  none_left o = ground (arith, rest_lem, live.once, o)

  pub complete-IsLive :
      (split : Splitter) (ok : Bool) (n now : ℕ) (taken : Bool)
      → IsLive (on_complete_operation split ok x n now taken (record s { io = before ++ after }))
  unfolding on_complete_operation ended taken_out rest
  complete-IsLive split true n now taken = ended-IsLive _ (
      done-Handled split x n now taken (taken_out now) (taken_out-IsOpen now)
        (omega (arith, live.short, rest_lem.0)) x.operation_type refl
        (AllServed-right before (x ∷ after) served).0 none_left (other-Told now))
  complete-IsLive split false n now taken = ended-IsLive _ (
      failed-Handled split x n now taken (taken_out now) (taken_out-IsOpen now)
        (omega (arith, live.short, rest_lem.0)) x.operation_type refl
        (AllServed-right before (x ∷ after) served).0)
