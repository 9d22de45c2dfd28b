-- ===== src/Service/Connect.antt =====
-- Netlib/TcpService.cpp, ConnectServer: a client for a connection to a remote server, up to its wait for the
-- connection and from there on.
use iocp_netlib.Base.{ℕ, Bool, true, false, not, Option, none, some, ◌==◌, if◌then◌else◌}
use iocp_netlib.Client.{
  ConnState, conn_connected, op_connectex_timeout, increase_ref, decrease_ref, set_client,
}
use iocp_netlib.Client.Post.{post_special}
use iocp_netlib.Client.Connect.{Answers, post_connect}
use iocp_netlib.Service.{Entry, TcpService, view, find_client, put_back, remove, alloc_tcp_client}

-- The answers to ConnectServer before its wait: CreateSemaphore for its local semaphore, the id and the
-- tick count, the pool's block and socket for the client, and what PostConnect asks the system.
pub record ConnectAnswers : Type 0 where
  pub semaphore : Bool
  pub next_id : ℕ
  pub now : ℕ
  pub fresh : ℕ
  pub created : Bool
  pub connect : Answers

-- PostConnect of a client that has been made, through the TcpClientRef that holds it.
unfoldable pub connect_client : Answers → ℕ → Option Entry × TcpService → Option ℕ × TcpService
connect_client a port (none, v) = (none, v)
connect_client a port (some e, v) =
    let (ok, s) = post_connect a port (set_client (view v.pools e) (increase_ref e.client)) in
    if ok
    then (some e.key, put_back e.key s v)
    else (none, remove e.key (put_back e.key (set_client s (decrease_ref s.client)) v))

-- Up to the wait: the id of the client that is waited for, or none when 0 is returned.
unfoldable pub connect_begin : ℕ → ConnectAnswers → ℕ → TcpService → Option ℕ × TcpService
connect_begin listen_port a port v =
    if not (listen_port == 0)
    then (none, v)
    else if not a.semaphore
    then (none, v)
    else connect_client a.connect port (alloc_tcp_client a.next_id a.now a.fresh a.created v)

abbrev pub is_connected : ConnState → Bool
is_connected conn_connected = true
is_connected _ = false

-- From the result of the wait on: the value, and the service without the reference.
unfoldable pub connect_end : ℕ → ℕ → Bool → Bool → TcpService → ℕ × TcpService
connect_end key fresh taken signalled v = elim (find_client key v) [
  | none ↦ (0, v)
  | some e ↦
      let (_, s) = post_special op_connectex_timeout fresh taken (view v.pools e) in
      if signalled
      then (
        if is_connected e.client.conn_state then key else 0,
        put_back key (set_client (view v.pools e) (decrease_ref e.client)) v,
      )
      else (0, put_back key (set_client s (decrease_ref s.client)) v)
]

-- ConnectServer; `meanwhile` is what the other threads make of the service during the wait, with whether
-- the semaphore was signalled in time.
unfoldable pub connect_server :
    ℕ
    → ConnectAnswers
    → ℕ
    → (TcpService → Bool × TcpService)
    → ℕ
    → Bool
    → TcpService
    → ℕ × TcpService
connect_server listen_port a port meanwhile fresh taken v =
    let (id, v₁) = connect_begin listen_port a port v in
    elim id [
      | none ↦ (0, v₁)
      | some key ↦ let (signalled, v₂) = meanwhile v₁ in connect_end key fresh taken signalled v₂
    ]
