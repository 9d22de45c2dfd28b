-- ===== src/Client/Life.antt =====
-- Netlib/TcpClient.cpp and TcpService.cpp: the life of an accepted connection, under any sequence of
-- completions, sends, closings, time-outs and references.
pub mod Release
pub mod Steps
pub mod Handlers
pub mod Completion
pub mod Posted
pub mod Reach
use iocp_netlib.Base.{
  ap, subst, append-nil, ℕ, zero, suc, ◌+◌, ◌-◌, ◌%◌, ◌^◌, ◌≤◌, ◌<◌, ◌≡◌, refl, sym, ◌∙◌, ◌≢◌, ◌⊎◌,
  inl, inr, Bool, true, false, Option, none, some, List, [], ◌∷◌, ◌++◌, arith, length,
  if◌then◌else◌,
}
use iocp_netlib.Config.{NetServiceErr, success}
use iocp_netlib.Client.{
  TcpClient, Pools, Session, IoContext, Event, OpType, ConnState, conn_closed, conn_connected,
  conn_closing, on_connected, on_closed, op_recv, op_send, op_timeout, op_closed, increase_ref,
  decrease_ref, is_active, set_client,
}
use iocp_netlib.Client.Post.{post_send, post_special}
use iocp_netlib.Client.Complete.{Splitter, on_complete_operation}

abbrev pub is_recv : OpType → Bool
is_recv op_recv = true
is_recv _ = false

-- The requests that an accepted connection makes.
abbrev pub is_served : OpType → Bool
is_served op_recv = true
is_served op_send = true
is_served op_timeout = true
is_served op_closed = true
is_served _ = false

-- How many requests of the list are receives.
abbrev pub recvs : List IoContext → ℕ
recvs [] = 0
recvs (x ∷ xs) = (if is_recv x.operation_type then 1 else 0) + recvs xs

abbrev pub AllServed : List IoContext → Type 0
AllServed [] = Unit {0}
AllServed (x ∷ xs) = (is_served x.operation_type ≡ true) × AllServed xs

pub recvs-append : (xs ys : List IoContext) → recvs (xs ++ ys) ≡ recvs xs + recvs ys
recvs-append [] ys = omega arith
recvs-append (x ∷ xs) ys = omega (arith, recvs-append xs ys)

pub AllServed-append : (xs ys : List IoContext) → AllServed xs → AllServed ys → AllServed (xs ++ ys)
AllServed-append [] ys h k = k
AllServed-append (x ∷ xs) ys h k = (h.0, AllServed-append xs ys h.1 k)

pub AllServed-left : (xs ys : List IoContext) → AllServed (xs ++ ys) → AllServed xs
AllServed-left [] ys h = tt
AllServed-left (x ∷ xs) ys h = (h.0, AllServed-left xs ys h.1)

pub AllServed-right : (xs ys : List IoContext) → AllServed (xs ++ ys) → AllServed ys
AllServed-right [] ys h = h
AllServed-right (x ∷ xs) ys h = AllServed-right xs ys h.1

-- OnClosed with the code of the first disconnect.
abbrev pub closed : TcpClient → Event
closed c = on_closed c.logic_socket_id c.remote_ip c.remote_port c.last_error_code

-- The calls of OnConnected and those of OnClosed, in order.
abbrev pub openings : List Event → List Event
openings [] = []
openings (on_connected id ip port ∷ rest) = on_connected id ip port ∷ openings rest
openings (on_closed id ip port err ∷ rest) = openings rest

abbrev pub closings : List Event → List Event
closings [] = []
closings (on_connected id ip port ∷ rest) = closings rest
closings (on_closed id ip port err ∷ rest) = on_closed id ip port err ∷ closings rest

-- At most one OnConnected, wherever it stands, and these calls of OnClosed.
abbrev pub Calls : List Event → List Event → Type 0
Calls closes events = (closings events ≡ closes) × (length (openings events) ≤ 1)

closings-append : (xs ys : List Event) → closings (xs ++ ys) ≡ closings xs ++ closings ys
closings-append [] ys = refl
closings-append (on_connected id ip port ∷ xs) ys = closings-append xs ys
closings-append (on_closed id ip port err ∷ xs) ys =
    ap (λ zs. on_closed id ip port err ∷ zs) (closings-append xs ys)

openings-append : (xs ys : List Event) → openings (xs ++ ys) ≡ openings xs ++ openings ys
openings-append [] ys = refl
openings-append (on_connected id ip port ∷ xs) ys =
    ap (λ zs. on_connected id ip port ∷ zs) (openings-append xs ys)
openings-append (on_closed id ip port err ∷ xs) ys = openings-append xs ys

pub Calls-closed :
    (c : TcpClient) (events : List Event)
    → Calls [] events
    → Calls (closed c ∷ []) (events ++ (closed c ∷ []))
Calls-closed c events (none_yet, few) = (
  closings-append events (closed c ∷ []) ∙ ap (λ l. l ++ (closed c ∷ [])) none_yet,
  omega (
    arith,
    few,
    ap length (openings-append events (closed c ∷ []) ∙ append-nil (openings events)),
  ),
)

Calls-opened :
    (id ip port : ℕ) (closes events : List Event)
    → openings events ≡ []
    → Calls closes events
    → Calls closes (events ++ (on_connected id ip port ∷ []))
Calls-opened id ip port closes events none_yet (e, _) = (
  closings-append events (on_connected id ip port ∷ []) ∙ append-nil (closings events) ∙ e,
  omega (
    arith,
    ap length (
        openings-append events (on_connected id ip port ∷ [])
        ∙ ap (λ l. l ++ (on_connected id ip port ∷ [])) none_yet),
  ),
)

-- What the application has been told, by the state of the connection; OnConnected may come at any time,
-- since it is called after the first receive has been posted. While it is connected one receive is in
-- flight; afterwards its socket is closed.
abbrev pub Told : ConnState → TcpClient → ℕ → List Event → Type 0
Told conn_connected c n events = (n ≡ 1) × Calls [] events
Told conn_closing c n events = (c.socket_open ≡ false) × Calls [] events
Told conn_closed c n events = (c.socket_open ≡ false) × Calls (closed c ∷ []) events

-- The other fields of the client do not matter for it.
pub Told-keep :
    (st : ConnState) (c d : TcpClient) (n : ℕ) (events : List Event)
    → c.socket_open ≡ d.socket_open
    → closed c ≡ closed d
    → Told st c n events
    → Told st d n events
Told-keep conn_connected c d n events o f h = h
Told-keep conn_closing c d n events o f h = (sym o ∙ h.0, h.1)
Told-keep conn_closed c d n events o f h = (sym o ∙ h.0, subst (λ e. Calls (e ∷ []) events) f h.1)

-- A call of OnConnected that has not been made before.
pub Told-opened :
    (st : ConnState) (c : TcpClient) (n id ip port : ℕ) (events : List Event)
    → openings events ≡ []
    → Told st c n events
    → Told st c n (events ++ (on_connected id ip port ∷ []))
Told-opened conn_connected c n id ip port events first h =
    (h.0, Calls-opened id ip port [] events first h.1)
Told-opened conn_closing c n id ip port events first h =
    (h.0, Calls-opened id ip port [] events first h.1)
Told-opened conn_closed c n id ip port events first h =
    (h.0, Calls-opened id ip port (closed c ∷ []) events first h.1)

-- Between two operations.
pub record IsLive (s : Session) : Type 0 where
  pub counted : s.client.pending_io ≡ length s.io
  pub short : length s.io < 2 ^ 31
  pub once : recvs s.io ≤ 1
  pub served : AllServed s.io
  pub referenced : s.client.reference_count < 2 ^ 31
  pub told : Told s.client.conn_state s.client (recvs s.io) s.events
  pub over : s.io ≡ [] → s.client.conn_state ≡ conn_closed
  pub alive :
      s.registered ≡ false
      → (s.client.reference_count ≡ 0) × ((s.io ≡ []) ⊎ (s.client.marked_destroy ≡ true))

-- In an operation that ends with CheckRelease: one request is counted that is no longer in flight, and
-- the connection is still known to the service.
pub record IsBusy (s : Session) : Type 0 where
  pub counted : s.client.pending_io ≡ length s.io + 1
  pub short : length s.io < 2 ^ 31
  pub once : recvs s.io ≤ 1
  pub served : AllServed s.io
  pub referenced : s.client.reference_count < 2 ^ 31
  pub told : Told s.client.conn_state s.client (recvs s.io) s.events
  pub known : s.registered ≡ true
