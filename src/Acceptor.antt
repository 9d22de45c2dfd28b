-- ===== src/Acceptor.antt =====
-- Netlib/TcpAcceptor.h and Netlib/TcpAcceptor.cpp: what becomes of a client whose AcceptEx has
-- completed. The results of the system's calls are arguments.
pub mod Life
mod Tests
use iocp_netlib.Base.{
  ℕ, ◌+◌, ◌-◌, ◌%◌, ◌^◌, Bool, true, false, Option, none, some, List, [], ◌∷◌, ◌++◌, ◌==◌,
  if◌then◌else◌,
}
use iocp_netlib.Client.{
  TcpClient, Session, Event, ConnState, report_connected, conn_connected, op_accept, reset,
  is_accepting, close_socket, remove_client, set_client, increment, decrement,
}
use iocp_netlib.Client.Post.{post_recv}

-- `released` counts the calls of OnAcceptorReleased, after which the object is deleted.
pub record TcpAcceptor : Type 0 where
  pub socket_open : Bool
  pub pending_accept_count : ℕ
  pub released : ℕ

-- SO_UPDATE_ACCEPT_CONTEXT, TCP_NODELAY, the completion port, the address of the peer and WSARecv, as
-- AcceptConnection asks for them.
pub record Answers : Type 0 where
  pub updated : Bool
  pub nodelay : Bool
  pub attached : Bool
  pub peer : Option (ℕ × ℕ)
  pub taken : Bool

-- The part of AcceptConnection from the address of the peer to PostRecv.
abbrev pub connect_peer : ℕ → ℕ → Bool → Session → Bool × Session
connect_peer ip port taken s =
    let c = record s.client { remote_ip = ip; remote_port = port; conn_state = conn_connected } in
    post_recv taken (set_client s c)

-- AcceptConnection up to OnConnected.
unfoldable pub accept_begin : Answers → Session → Bool × Session
accept_begin a s =
    if is_accepting s.client
    then (if a.updated
        then (if a.nodelay
            then (if a.attached
                then elim a.peer [
                  | none ↦ (false, s)
                  | some (ip, port) ↦ connect_peer ip port a.taken s
                ]
                else (false, s))
            else (false, s))
        else (false, s))
    else (false, s)

-- AcceptConnection; `meanwhile` is what other threads do to the client after its receive has been posted
-- and before OnConnected.
unfoldable pub accept_connection : Answers → (Session → Session) → Session → Bool × Session
accept_connection a meanwhile s =
    let (posted, s') = accept_begin a s in
    if posted then (true, report_connected (meanwhile s')) else (false, s')

-- CloseSocket, Reset and RemoveClient on a client that is not accepted.
abbrev pub reject : ℕ → Session → Session
reject now s = remove_client (set_client (set_client s (close_socket s.client)) (reset now))

-- The part of OnCompleteOperation for the client, at the tick count `now`.
unfoldable pub complete_accept : Bool → ℕ → Answers → (Session → Session) → Session → Session
complete_accept success now a meanwhile s =
    let (accepted, s') = accept_connection a meanwhile s in
    if success then (if accepted then s' else reject now s') else reject now s

-- PostAccept for a client that AllocTcpClient gives, `none` if it gives none; `posted` says that
-- AcceptEx has the request. The client is freed again if it has not.
unfoldable pub post_accept :
    Option Session → Bool → TcpAcceptor → Bool × Option Session × TcpAcceptor
post_accept client posted a =
    if a.socket_open
    then elim client [
      | none ↦ (false, none, a)
      | some s ↦
          let s' = set_client s (record s.client { recv_op = op_accept }) in
          if posted
          then (true, some s', record a { pending_accept_count = increment a.pending_accept_count })
          else (
            false,
            some (remove_client s'),
            record a { pending_accept_count = decrement (increment a.pending_accept_count) },
          )
    ]
    else (false, none, a)

-- The part of OnCompleteOperation after PostAccept.
unfoldable pub end_accept : TcpAcceptor → TcpAcceptor
end_accept a =
    let n = decrement a.pending_accept_count in
    if n == 0
    then record a { socket_open = false; pending_accept_count = n; released = a.released + 1 }
    else record a { pending_accept_count = n }

unfoldable pub post_cancel : TcpAcceptor → TcpAcceptor
post_cancel a = record a { socket_open = false }
