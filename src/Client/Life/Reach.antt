-- ===== src/Client/Life/Reach.antt =====
-- Netlib/TcpClient.cpp, TcpService.cpp and TcpAcceptor.cpp: every sequence of operations on an accepted
-- connection.
use iocp_netlib.Base.{
  ℕ, ◌+◌, ◌^◌, ◌<◌, ◌≡◌, refl, sym, ap, subst, ◌⊎◌, inl, inr, Bool, true, false, List, [], ◌∷◌,
  ◌++◌, arith, length, length-append, Bool-cases,
}
use iocp_netlib.Config.{success}
use iocp_netlib.Client.{
  Pools, Session, IoContext, OpType, set_client, increase_ref, decrease_ref, increase_io_count,
  op_timeout, op_closed, on_connected, report_connected,
}
use iocp_netlib.Client.Post.{request, check_release, post_send, post_special}
use iocp_netlib.Client.Complete.{Splitter, on_complete_operation}
use iocp_netlib.Client.Life.{
  recvs, is_recv, is_served, AllServed-append, recvs-append, openings, Told, Told-keep, Told-opened,
  IsLive,
}
use iocp_netlib.Client.Life.Release.{check_release-IsLive}
use iocp_netlib.Client.Life.Completion.{complete-IsLive}
use iocp_netlib.Client.Life.Posted.{
  no_block, in_flight, refused, post_send-Sent, special, special_request, post_special_done,
}

-- The steps, which operate on the client while the service knows it. A request that is in flight
-- completes, with or without success. A holder of a reference sends. CloseSocket or SetTimeout post,
-- with success. References are taken and dropped. checkStatus frees a marked client without
-- references, whatever is in flight. The acceptor calls OnConnected once, with what it reads of the
-- client; if that has been freed, with what then lies there. Other connections use the pools.
pub data Step (s : Session) : Session → Type 0 where
  completes :
      (split : Splitter) (ok : Bool) (before after : List IoContext) (x : IoContext) (n now : ℕ)
      (taken : Bool)
      → s.registered ≡ true
      → s.io ≡ before ++ (x ∷ after)
      → Step s (on_complete_operation split ok x n now taken (record s { io = before ++ after }))
  sends :
      (len fresh_context fresh_packet : ℕ) (taken : Bool)
      → 0 < s.client.reference_count
      → length s.io + 1 < 2 ^ 31
      → Step s (post_send len fresh_context fresh_packet taken s).1
  posts :
      (op : OpType) (fresh : ℕ) (taken : Bool)
      → (op ≡ op_timeout) ⊎ (op ≡ op_closed)
      → s.registered ≡ true
      → length s.io + 1 < 2 ^ 31
      → (post_special op fresh taken s).0 ≡ success
      → Step s (post_special op fresh taken s).1
  refers :
      s.registered ≡ true
      → s.client.reference_count + 1 < 2 ^ 31
      → Step s (set_client s (increase_ref s.client))
  drops : 0 < s.client.reference_count → Step s (set_client s (decrease_ref s.client))
  reaps :
      s.client.marked_destroy ≡ true
      → s.client.reference_count ≡ 0
      → Step s (record s { registered = false })
  tells : openings s.events ≡ [] → s.registered ≡ true → Step s (report_connected s)
  tells_late :
      (id ip port : ℕ)
      → openings s.events ≡ []
      → s.registered ≡ false
      → Step s (record s { events = s.events ++ (on_connected id ip port ∷ []) })
  elsewhere : (p : Pools) → Step s (record s { pools = p })

pub data Reach (s : Session) : Session → Type 0 where
  here : Reach s s
  next : {t u : Session} → Reach s t → Step t u → Reach s u

module _ {s : Session} (live : IsLive s) where
  -- One more request in flight that is no receive.
  requested-IsLive :
      (x : IoContext) (p : Pools)
      → is_served x.operation_type ≡ true
      → is_recv x.operation_type ≡ false
      → s.registered ≡ true
      → length s.io + 1 < 2 ^ 31
      → IsLive (request x (record s { client = increase_io_count s.client; pools = p }))
  requested-IsLive x p served other known room =
      let same : recvs (s.io ++ (x ∷ [])) ≡ recvs s.io =
        ground (arith, recvs-append s.io (x ∷ []), other) in
      record {
        counted = omega (arith, live.counted, length-append s.io (x ∷ []));
        short = omega (arith, length-append s.io (x ∷ []));
        once = omega (arith, live.once, same);
        served = AllServed-append s.io (x ∷ []) live.served (served, tt);
        referenced = live.referenced;
        told =
            subst (λ n. Told s.client.conn_state (increase_io_count s.client) n s.events) (sym same)
              (Told-keep s.client.conn_state s.client (increase_io_count s.client) (recvs s.io)
                s.events refl refl live.told);
        over = λ q. absurd (omega (arith, length-append s.io (x ∷ []), ap length q));
        alive = λ q. absurd (cc (q, known));
      }

  pools-IsLive : (p : Pools) → IsLive (record s { pools = p })
  pools-IsLive p = record {
    counted = live.counted;
    short = live.short;
    once = live.once;
    served = live.served;
    referenced = live.referenced;
    told = live.told;
    over = live.over;
    alive = live.alive;
  }

  -- The count goes up, and CheckRelease takes it back.
  refused-IsLive :
      (p : Pools)
      → s.registered ≡ true
      → IsLive (check_release (record s { client = increase_io_count s.client; pools = p }))
  refused-IsLive p known = check_release-IsLive _ (record {
    counted = omega (arith, live.counted, live.short);
    short = live.short;
    once = live.once;
    served = live.served;
    referenced = live.referenced;
    told =
        Told-keep s.client.conn_state s.client (increase_io_count s.client) (recvs s.io) s.events
          refl refl live.told;
    known = known;
  })

  held_known : 0 < s.client.reference_count → s.registered ≡ true
  held_known h = elim (Bool-cases s.registered) [
    | inl r ↦ r
    | inr r ↦ absurd (omega (arith, (live.alive r).0))
  ]

sends-IsLive :
    {s : Session}
    → IsLive s
    → (len fresh_context fresh_packet : ℕ) (taken : Bool) → 0 < s.client.reference_count
    → length s.io + 1 < 2 ^ 31
    → IsLive (post_send len fresh_context fresh_packet taken s).1
sends-IsLive {s} live len f g taken held room = elim (post_send-Sent s len f g taken) [
  | no_block p e ↦ subst IsLive (sym e) (pools-IsLive live p)
  | in_flight x p o e ↦
      subst IsLive (sym e)
        (requested-IsLive live x p (ap is_served o) (ap is_recv o) (held_known live held) room)
  | refused p p' e ↦
      subst IsLive (sym e) (pools-IsLive (refused-IsLive live p (held_known live held)) p')
]

posts-IsLive :
    {s : Session}
    → IsLive s
    → (op : OpType) (fresh : ℕ) (taken : Bool) → (op ≡ op_timeout) ⊎ (op ≡ op_closed)
    → s.registered ≡ true
    → length s.io + 1 < 2 ^ 31
    → (post_special op fresh taken s).0 ≡ success
    → IsLive (post_special op fresh taken s).1
posts-IsLive {s} live op fresh taken o known room ok =
    subst IsLive (sym (post_special_done s op fresh taken ok)) (
      requested-IsLive live (special_request s op fresh taken) (special s op fresh taken)
        (ground (arith, o)) (ground (arith, o)) known room)

module _ {s : Session} (live : IsLive s) where
  -- The reference count changes to `n`.
  counts-IsLive :
      (n : ℕ)
      → n < 2 ^ 31
      → (s.registered ≡ false → n ≡ 0)
      → IsLive (set_client s (record s.client { reference_count = n }))
  counts-IsLive n small none_left = record {
    counted = live.counted;
    short = live.short;
    once = live.once;
    served = live.served;
    referenced = small;
    told =
        Told-keep s.client.conn_state s.client (record s.client { reference_count = n })
          (recvs s.io) s.events refl refl live.told;
    over = live.over;
    alive = λ q. (none_left q, (live.alive q).1);
  }

  refers-IsLive :
      s.registered ≡ true
      → s.client.reference_count + 1 < 2 ^ 31
      → IsLive (set_client s (increase_ref s.client))
  unfolding increase_ref
  refers-IsLive known room = counts-IsLive _ (omega arith) (λ q. absurd (cc (q, known)))

  drops-IsLive : 0 < s.client.reference_count → IsLive (set_client s (decrease_ref s.client))
  unfolding decrease_ref
  drops-IsLive held =
      counts-IsLive _ (omega (arith, live.referenced))
        (λ q. absurd (omega (arith, (live.alive q).0)))

  reaps-IsLive :
      s.client.marked_destroy ≡ true
      → s.client.reference_count ≡ 0
      → IsLive (record s { registered = false })
  reaps-IsLive mark free = record {
    counted = live.counted;
    short = live.short;
    once = live.once;
    served = live.served;
    referenced = live.referenced;
    told = live.told;
    over = live.over;
    alive = λ q. (free, inr mark);
  }

  tells-IsLive :
      (id ip port : ℕ)
      → openings s.events ≡ []
      → IsLive (record s { events = s.events ++ (on_connected id ip port ∷ []) })
  tells-IsLive id ip port first = record {
    counted = live.counted;
    short = live.short;
    once = live.once;
    served = live.served;
    referenced = live.referenced;
    told =
        Told-opened s.client.conn_state s.client (recvs s.io) id ip port s.events first live.told;
    over = live.over;
    alive = live.alive;
  }

Step-IsLive : {s t : Session} → IsLive s → Step s t → IsLive t
Step-IsLive {s} live (completes split ok before after x n now taken known e) =
    complete-IsLive s live before after x e known split ok n now taken
Step-IsLive live (sends len f g taken held room) = sends-IsLive live len f g taken held room
Step-IsLive live (posts op fresh taken o known room ok) =
    posts-IsLive live op fresh taken o known room ok
Step-IsLive {s} live (refers known room) = refers-IsLive live known room
Step-IsLive {s} live (drops held) = drops-IsLive live held
Step-IsLive {s} live (reaps mark free) = reaps-IsLive live mark free
Step-IsLive {s} live (tells first known) = tells-IsLive live _ _ _ first
Step-IsLive live (tells_late id ip port first known) = tells-IsLive live id ip port first
Step-IsLive live (elsewhere p) = pools-IsLive live p

pub Reach-IsLive : {s t : Session} → IsLive s → Reach s t → IsLive t
Reach-IsLive live here = live
Reach-IsLive live (next r st) = Step-IsLive (Reach-IsLive live r) st
