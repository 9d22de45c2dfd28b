-- ===== src/Service/Server.antt =====
-- Netlib/TcpService.cpp, ConnectServer: its value, and the clients that it leaves.
use iocp_netlib.Base.{
  ℕ, ◌+◌, ◌^◌, ◌<◌, ◌≡◌, refl, sym, ap, subst, ◌∙◌, ◌⊎◌, inl, inr, Bool, true, false, ◌&&◌, Option,
  none, some, [], arith, ◌==◌, if◌then◌else◌, Bool-cases,
}
use iocp_netlib.Client.{
  Session, op_connectex_timeout, reset, decrease_ref, set_client, alloc_block, release_block,
}
use iocp_netlib.Client.Post.{post_special}
use iocp_netlib.Service.{
  Entry, TcpService, view, node, find_in, find_client, put_back, insert_in, alloc_tcp_client,
}
use iocp_netlib.Service.Send.{find-put_other, find-put_self}
use iocp_netlib.Service.Connect.{
  ConnectAnswers, connect_client, connect_begin, is_connected, connect_end, connect_server,
}
use iocp_netlib.Service.Connecting.{OthersKept, NotThere, Waits, connect_client-cases}

-- A client that AllocTcpClient has made, in the service behind it
record IsNew (id : ℕ) (v : TcpService) (e : Entry) (w : TcpService) : Type 0 where
  key : e.key ≡ id
  inserted : w.clients ≡ insert_in e v.clients
  no_refs : e.client.reference_count ≡ 0
  no_io : e.client.pending_io ≡ 0
  no_requests : e.io ≡ []

alloc_tcp_client-cases :
    (id now fresh : ℕ) (created : Bool) (v : TcpService)
    → ((w : TcpService) × (alloc_tcp_client id now fresh created v ≡ (none, w))
        × (w.clients ≡ v.clients))
      ⊎ ((e : Entry) × (w : TcpService) × (alloc_tcp_client id now fresh created v ≡ (some e, w))
          × IsNew id v e w)
unfolding alloc_tcp_client reset
alloc_tcp_client-cases id now fresh created v =
    let (address, pool) = alloc_block fresh v.pools.clients in
    elim (Bool-cases v.marked_stop) [
      | inl m ↦ inl (v, rw (alloc_tcp_client, m) refl, refl)
      | inr m ↦ elim (Bool-cases (address == 0)) [
        | inl z ↦ inl (
          record v { pools = record v.pools { clients = pool } },
          rw (alloc_tcp_client, m, z) refl,
          refl,
        )
        | inr z ↦ elim (Bool-cases created) [
          | inr n ↦ inl (
            record v { pools = record v.pools { clients = release_block address pool } },
            rw (alloc_tcp_client, m, z, n) refl,
            refl,
          )
          | inl y ↦
              let e : Entry = record {
                key = id;
                address = address;
                client = record (reset now) { logic_socket_id = id; socket_open = true };
                io = [];
                events = [];
              } in
              inr (
                e,
                record v {
                  clients = insert_in e v.clients;
                  pools = record v.pools { clients = pool };
                },
                rw (alloc_tcp_client, m, z, y) refl,
                record {
                  key = refl;
                  inserted = refl;
                  no_refs = refl;
                  no_io = refl;
                  no_requests = refl;
                },
              )
        ]
      ]
    ]

module _ (listen_port : ℕ) (a : ConnectAnswers) (port : ℕ) (v : TcpService)
    (fresh : find_client a.next_id v ≡ none) where
  -- Up to the wait
  abbrev Begun : Option ℕ × TcpService → Type 0
  Begun r =
      ((r.0 ≡ none) × NotThere a.next_id v r.1)
      ⊎ ((r.0 ≡ some a.next_id) × Waits a.connect a.next_id port r.1 × OthersKept a.next_id v r.1)

  connect_new :
      (e : Entry) (w : TcpService)
      → IsNew a.next_id v e w
      → Begun (connect_client a.connect port (some e, w))
  connect_new e w n =
      subst
        (λ (key : ℕ).
          let r = connect_client a.connect port (some e, w) in
          ((r.0 ≡ none) × NotThere key v r.1)
          ⊎ ((r.0 ≡ some key) × Waits a.connect key port r.1 × OthersKept key v r.1))
        n.key
        (connect_client-cases a.connect port v w e (ap (λ k. find_client k v) n.key ∙ fresh)
          n.inserted n.no_refs n.no_io n.no_requests)

  connect_none :
      (w : TcpService) → w.clients ≡ v.clients → Begun (connect_client a.connect port (none, w))
  unfolding connect_client find_client
  connect_none w same =
      inl (refl, (ap (find_in a.next_id) same ∙ fresh, (λ other ne. ap (find_in other) same)))

  connect_begin-Begun : Begun (connect_begin listen_port a port v)
  unfolding connect_begin
  connect_begin-Begun = elim (Bool-cases (listen_port == 0)) [
    | inr l ↦ rw l (inl (refl, (fresh, (λ other ne. refl))))
    | inl l ↦ elim (Bool-cases a.semaphore) [
      | inr b ↦ rw (l, b) (inl (refl, (fresh, (λ other ne. refl))))
      | inl b ↦ elim (alloc_tcp_client-cases a.next_id a.now a.fresh a.created v) [
        | inl (w, run, same) ↦ rw (l, b, run) (connect_none w same)
        | inr (e, w, run, n) ↦ rw (l, b, run) (connect_new e w n)
      ]
    ]
  ]

-- What the rest of ConnectServer does with a client `e` that it holds
abbrev pub Ended : ℕ → Bool → Entry → TcpService → ℕ × TcpService → Type 0
Ended key signalled e u r =
    (r.0 ≡ (if signalled && is_connected e.client.conn_state then key else 0))
    × OthersKept key u r.1
    × (signalled ≡ true
        → (e' : Entry) × (find_client key r.1 ≡ some e')
          × (e'.client.reference_count + 1 ≡ e.client.reference_count)
          × (e'.client.conn_state ≡ e.client.conn_state))

module _ (key fresh : ℕ) (taken : Bool) (u : TcpService) (e : Entry)
    (found : find_client key u ≡ some e) (held : 0 < e.client.reference_count)
    (small : e.client.reference_count < 2 ^ 32) where
  unheld : Session
  unheld = set_client (view u.pools e) (decrease_ref e.client)

  timed_out : Session
  timed_out =
      let s = (post_special op_connectex_timeout fresh taken (view u.pools e)).1 in
      set_client s (decrease_ref s.client)

  connect_end_signalled :
      connect_end key fresh taken true u
      ≡ (if is_connected e.client.conn_state then key else 0, put_back key unheld u)
  unfolding connect_end unheld
  connect_end_signalled = rw (connect_end, found) refl

  connect_end_late : connect_end key fresh taken false u ≡ (0, put_back key timed_out u)
  unfolding connect_end timed_out
  connect_end_late = rw (connect_end, found) refl

  kept : (s : Session) → OthersKept key u (put_back key s u)
  unfolding find_client
  kept s other ne = find-put_other key other s u.clients ne

  found_again : find_client key (put_back key unheld u) ≡ some (node key unheld)
  unfolding find_client unheld
  found_again = find-put_self key unheld u.clients e refl found

  unheld_once : unheld.client.reference_count + 1 ≡ e.client.reference_count
  unfolding unheld decrease_ref
  unheld_once = omega arith

  connect_end-Ended :
      (signalled : Bool) → Ended key signalled e u (connect_end key fresh taken signalled u)
  unfolding unheld decrease_ref
  connect_end-Ended true =
      subst (Ended key true e u) (sym connect_end_signalled)
        (refl, kept unheld, (λ ok. (node key unheld, found_again, unheld_once, refl)))
  connect_end-Ended false =
      subst (Ended key false e u) (sym connect_end_late) (refl, kept timed_out, (λ ok. absurd cc))

-- ConnectServer with an id that is new, when the other threads keep the client that it holds. Either it
-- returns 0 at once, and no client has that id and the map is as it was for every other; or it has waited in
-- a service that is as before but for a new client, held once, with one connect request in flight to the
-- address that was asked for, and it returns the id exactly when the semaphore was signalled in time and the
-- client is connected then, and 0 otherwise. The map of every other id is as the other threads left it, and
-- after a wait in time the client is still there, with one reference less.
pub connect_server-cases :
    (listen_port : ℕ) (a : ConnectAnswers) (port : ℕ) (meanwhile : TcpService → Bool × TcpService)
    (fresh : ℕ) (taken : Bool) (v : TcpService)
    → find_client a.next_id v ≡ none
    → ((w : TcpService)
        → Waits a.connect a.next_id port w
        → (e : Entry) × (find_client a.next_id (meanwhile w).1 ≡ some e)
          × (0 < e.client.reference_count)
          × (e.client.reference_count < 2 ^ 32))
    → let r = connect_server listen_port a port meanwhile fresh taken v in
      ((r.0 ≡ 0) × NotThere a.next_id v r.1)
      ⊎ ((w : TcpService) × (e : Entry) × Waits a.connect a.next_id port w
          × OthersKept a.next_id v w
          × (find_client a.next_id (meanwhile w).1 ≡ some e)
          × Ended a.next_id (meanwhile w).0 e (meanwhile w).1 r)
unfolding connect_server
connect_server-cases listen_port a port meanwhile fresh taken v new others =
    let begun : Option ℕ × TcpService = connect_begin listen_port a port v in
    elim (connect_begin-Begun listen_port a port v new) [
      | inl (none_left, gone) ↦ inl (rw (connect_server, none_left) (refl, gone))
      | inr (waits, waiting, kept_others) ↦
          let (e, found, held, small) = others begun.1 waiting in
          inr (
            begun.1,
            e,
            waiting,
            kept_others,
            found,
            rw (connect_server, waits)
                (connect_end-Ended a.next_id fresh taken (meanwhile begun.1).1 e found held small
                  (meanwhile begun.1).0),
          )
    ]
