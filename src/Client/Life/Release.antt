-- ===== src/Client/Life/Release.antt =====
-- Netlib/TcpClient.cpp, CheckRelease: the last request of a connection ends it.
use iocp_netlib.Base.{
  ◌^◌, ◌<◌, ◌≡◌, refl, sym, ap, subst, ◌⊎◌, inl, inr, true, false, List, [], ◌∷◌, arith, length,
  List-cases,
}
use iocp_netlib.Client.{
  Session, IoContext, ConnState, conn_closed, conn_connected, conn_closing, remove_client,
  is_active, set_client, decrease_io_count, release_block,
}
use iocp_netlib.Client.Post.{check_release, finish, report_closed}
use iocp_netlib.Client.Life.{recvs, Told, Told-keep, Calls-closed, IsLive, IsBusy}

abbrev marked : Session → Session
marked s = set_client s (record s.client { marked_destroy = true })

abbrev gone : Session → Session
gone s = record s {
  registered = false;
  pools = record s.pools { clients = release_block s.address s.pools.clients };
}

remove_client-cases :
    (s : Session)
    → s.registered ≡ true
    → s.client.reference_count < 2 ^ 31
    → (remove_client s ≡ marked s) ⊎ ((remove_client s ≡ gone s) × (s.client.reference_count ≡ 0))
unfolding remove_client is_active
remove_client-cases s reg r = ground arith

module _ (s : Session) (e : s.io ≡ []) (z : s.client.pending_io ≡ 0)
    (st : s.client.conn_state ≡ conn_closed) (reg : s.registered ≡ true)
    (r : s.client.reference_count < 2 ^ 31) (told : Told conn_closed s.client 0 s.events) where
  marked-IsLive : IsLive (marked s)
  marked-IsLive = record {
    counted = ground (arith, e, z);
    short = ground (arith, e);
    once = ground (arith, e);
    served = rw e tt;
    referenced = r;
    told = rw st told;
    over = λ q. st;
    alive = λ q. cc;
  }

  gone-IsLive : s.client.reference_count ≡ 0 → IsLive (gone s)
  gone-IsLive free = record {
    counted = ground (arith, e, z);
    short = ground (arith, e);
    once = ground (arith, e);
    served = rw e tt;
    referenced = r;
    told = rw st told;
    over = λ q. st;
    alive = λ q. (free, inl e);
  }

  -- RemoveClient after the last request of a connection that is closed.
  remove_client-IsLive : IsLive (remove_client s)
  remove_client-IsLive = elim (remove_client-cases s reg r) [
    | inl run ↦ subst IsLive (sym run) marked-IsLive
    | inr (run, free) ↦ subst IsLive (sym run) (gone-IsLive free)
  ]

pub finish_closing :
    (s : Session) → s.client.conn_state ≡ conn_closing → finish s ≡ remove_client (report_closed s)
finish_closing s st = rw st refl

pub finish_connected :
    (s : Session) → s.client.conn_state ≡ conn_connected → finish s ≡ remove_client s
finish_connected s st = rw st refl

pub finish_closed : (s : Session) → s.client.conn_state ≡ conn_closed → finish s ≡ remove_client s
finish_closed s st = rw st refl

module _ (s : Session) (b : IsBusy s) where
  counted_down : Session
  counted_down = set_client s (decrease_io_count s.client)

  pending : counted_down.client.pending_io ≡ length s.io
  unfolding counted_down
  pending = omega (arith, b.counted, b.short)

  check_release_last : s.io ≡ [] → check_release s ≡ finish counted_down
  unfolding check_release counted_down
  check_release_last e = ground (arith, b.counted, e)

  check_release_more :
      (x : IoContext) (xs : List IoContext) → s.io ≡ x ∷ xs → check_release s ≡ counted_down
  unfolding check_release counted_down
  check_release_more x xs e = ground (arith, b.counted, b.short, e)

  more-IsLive : (x : IoContext) (xs : List IoContext) → s.io ≡ x ∷ xs → IsLive counted_down
  unfolding counted_down
  more-IsLive x xs e = record {
    counted = pending;
    short = omega (arith, b.short);
    once = b.once;
    served = b.served;
    referenced = b.referenced;
    told =
        Told-keep s.client.conn_state s.client (decrease_io_count s.client) (recvs s.io) s.events
          refl refl b.told;
    over = λ q. cc (q, e);
    alive = λ q. cc b.known;
  }

  last_pending : s.io ≡ [] → counted_down.client.pending_io ≡ 0
  last_pending e = omega (arith, pending, ap length e)

  closing-Told :
      s.client.conn_state ≡ conn_closing → Told conn_closing s.client (recvs s.io) s.events
  closing-Told st = subst (λ t. Told t s.client (recvs s.io) s.events) st b.told

  last-IsLive :
      (st : ConnState) → s.client.conn_state ≡ st → s.io ≡ [] → IsLive (finish counted_down)
  unfolding counted_down
  last-IsLive conn_connected st e =
      let told : Told conn_connected s.client (recvs s.io) s.events =
        subst (λ t. Told t s.client (recvs s.io) s.events) st b.told in
      absurd (omega (arith, told.0, ap recvs e))
  last-IsLive conn_closing st e = subst IsLive (sym (finish_closing counted_down st)) (
      remove_client-IsLive (report_closed counted_down) e (last_pending e) refl b.known b.referenced
        ((closing-Told st).0, Calls-closed s.client s.events (closing-Told st).1))
  last-IsLive conn_closed st e = subst IsLive (sym (finish_closed counted_down st)) (
      remove_client-IsLive counted_down e (last_pending e) st b.known b.referenced
        (subst (λ t. Told t s.client (recvs s.io) s.events) st b.told))

  pub check_release-IsLive : IsLive (check_release s)
  check_release-IsLive = elim (List-cases s.io) [
    | inl e ↦ subst IsLive (sym (check_release_last e)) (last-IsLive s.client.conn_state refl e)
    | inr (x, xs, e) ↦ subst IsLive (sym (check_release_more x xs e)) (more-IsLive x xs e)
  ]
