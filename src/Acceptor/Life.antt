-- ===== src/Acceptor/Life.antt =====
-- Netlib/TcpAcceptor.cpp and TcpClient.cpp: a connection from its accept to its end.
use iocp_netlib.Base.{
  ℕ, ◌≡◌, refl, sym, ap, subst, ◌∙◌, ◌⊎◌, inl, inr, Bool, true, false, Option, none, some, [], ◌∷◌,
  arith, length, Bool-cases, if◌then◌else◌,
}
use iocp_netlib.Client.{
  Session, op_accept, conn_connected, remove_client, is_accepting, is_active, reset,
  report_connected,
}
use iocp_netlib.Client.Post.{post_recv}
use iocp_netlib.Client.Life.{IsLive, closings, closed}
use iocp_netlib.Client.Life.Reach.{Reach}
use iocp_netlib.Acceptor.{
  Answers, accept_begin, accept_connection, complete_accept, connect_peer, reject,
}

-- A client as AllocTcpClient and SetRecvContextToAccept leave it.
pub record IsFresh (s : Session) : Type 0 where
  pub accepting : s.client.recv_op ≡ op_accept
  pub idle : s.client.pending_io ≡ 0
  pub unreferenced : s.client.reference_count ≡ 0
  pub known : s.registered ≡ true
  pub no_io : s.io ≡ []
  pub untold : s.events ≡ []

module _ {s : Session} (f : IsFresh s) where
  connect_peer-IsLive : (ip port : ℕ) → IsLive (connect_peer ip port true s).1
  unfolding post_recv
  connect_peer-IsLive ip port = record {
    counted = ground (arith, f.idle, f.no_io);
    short = ground (arith, f.no_io);
    once = ground (arith, f.no_io);
    served = rw f.no_io (refl, tt);
    referenced = ground (arith, f.unreferenced);
    told = (ground (arith, f.no_io), rw f.untold (refl, omega arith));
    over = λ q. absurd (ground (arith, f.no_io, q));
    alive = λ q. absurd (cc (q, f.known));
  }

-- A client that the acceptor does not take is gone, and the application was told nothing.
abbrev pub IsGone : Session → Type 0
IsGone s = (s.registered ≡ false) × (s.io ≡ []) × (s.events ≡ [])

reject-IsGone :
    (now : ℕ) (s : Session)
    → s.registered ≡ true
    → s.io ≡ []
    → s.events ≡ []
    → IsGone (reject now s)
unfolding remove_client is_active reset
reject-IsGone now s known no_io untold = ground (arith, known, no_io, untold)

-- A client whose first receive has just been posted.
abbrev pub IsConnected : Session → Type 0
IsConnected s =
    IsLive s × (s.client.conn_state ≡ conn_connected) × (s.events ≡ []) × (length s.io ≡ 1)

-- AcceptConnection that fails leaves no request and no call.
abbrev Untaken : Bool × Session → Type 0
Untaken r = (r.0 ≡ false) × (r.1.registered ≡ true) × (r.1.io ≡ []) × (r.1.events ≡ [])

module _ {s : Session} (f : IsFresh s) where
  same-Untaken : Untaken (false, s)
  same-Untaken = (refl, f.known, f.no_io, f.untold)

  unposted-Untaken : (ip port : ℕ) → Untaken (connect_peer ip port false s)
  unfolding post_recv
  unposted-Untaken ip port = (refl, f.known, f.no_io, f.untold)

  Accepted : Answers → Type 0
  Accepted a =
      ((ip : ℕ) × (port : ℕ) × (accept_begin a s ≡ (true, (connect_peer ip port true s).1)))
      ⊎ Untaken (accept_begin a s)

  accept_peer :
      (a : Answers) (peer : Option (ℕ × ℕ)) (taken : Bool)
      → accept_begin a s
        ≡ elim peer [ none ↦ (false, s) | some (ip, port) ↦ connect_peer ip port taken s ]
      → Accepted a
  unfolding Accepted post_recv
  accept_peer a none taken run = inr (subst Untaken (sym run) same-Untaken)
  accept_peer a (some (ip, port)) true run = inl (ip, port, run)
  accept_peer a (some (ip, port)) false run =
      inr (subst Untaken (sym run) (unposted-Untaken ip port))

  unaccepted : (a : Answers) → accept_begin a s ≡ (false, s) → Accepted a
  unfolding Accepted
  unaccepted a run = inr (subst Untaken (sym run) same-Untaken)

  accept_cases : (a : Answers) → Accepted a
  unfolding accept_begin is_accepting
  accept_cases a = elim (Bool-cases a.updated) [
    | inr u ↦ unaccepted a (rw (f.accepting, u) refl)
    | inl u ↦ elim (Bool-cases a.nodelay) [
      | inr d ↦ unaccepted a (rw (f.accepting, u, d) refl)
      | inl d ↦ elim (Bool-cases a.attached) [
        | inr t ↦ unaccepted a (rw (f.accepting, u, d, t) refl)
        | inl t ↦ accept_peer a a.peer a.taken (rw (f.accepting, u, d, t) refl)
      ]
    ]
  ]

  module _ (now : ℕ) (a : Answers) (meanwhile : Session → Session) where
    complete_rejected : complete_accept false now a meanwhile s ≡ reject now s
    unfolding complete_accept
    complete_rejected = refl

    complete_taken :
        (r : Bool × Session)
        → accept_begin a s ≡ r
        → complete_accept true now a meanwhile s
          ≡ (if r.0 then report_connected (meanwhile r.1) else reject now r.1)
    unfolding complete_accept accept_connection
    complete_taken (true, b) e = rw (complete_accept, accept_connection, e) refl
    complete_taken (false, b) e = rw (complete_accept, accept_connection, e) refl

  connect_peer-IsConnected : (ip port : ℕ) → IsConnected (connect_peer ip port true s).1
  unfolding post_recv
  connect_peer-IsConnected ip port =
      (connect_peer-IsLive f ip port, refl, rw f.untold refl, rw f.no_io refl)

  -- The completion of an AcceptEx for a fresh client, whatever other threads do to the client between
  -- its first receive and OnConnected: either AcceptConnection posted the receive, then it is in
  -- flight for a connected client of which the application has not been told yet, and OnConnected is
  -- called after what the others do; or the client is gone from the service, no request is in flight,
  -- and the application was told nothing.
  pub complete_accept-cases :
      (ok : Bool) (now : ℕ) (a : Answers) (meanwhile : Session → Session)
      → ((ok ≡ true)
          × ((accept_begin a s).0 ≡ true)
          × IsConnected (accept_begin a s).1
          × (complete_accept ok now a meanwhile s
              ≡ report_connected (meanwhile (accept_begin a s).1)))
        ⊎ IsGone (complete_accept ok now a meanwhile s)
  unfolding Accepted
  complete_accept-cases false now a meanwhile = inr (
      subst IsGone (sym (complete_rejected now a meanwhile))
        (reject-IsGone now s f.known f.no_io f.untold))
  complete_accept-cases true now a meanwhile = elim (accept_cases a) [
    | inr (e, known, no_io, untold) ↦ inr (
        subst IsGone (sym (complete_taken now a meanwhile (accept_begin a s) refl))
          (rw e (reject-IsGone now (accept_begin a s).1 known no_io untold)))
    | inl (ip, port, run) ↦ inl (
      refl,
      ap (λ r. r.0) run,
      subst (λ r. IsConnected r.1) (sym run) (connect_peer-IsConnected ip port),
      complete_taken now a meanwhile _ run ∙ ap (λ r. report_connected (meanwhile r.1)) (sym run),
    )
  ]

-- The calls of OnClosed that the application has seen of a connection.
abbrev pub ClosedOnce : Session → Type 0
ClosedOnce t = (closings t.events ≡ []) ⊎ (closings t.events ≡ closed t.client ∷ [])
