-- ===== src/Client/Special.antt =====
-- Netlib/TcpClient.cpp: two paths on which a connection is lost without OnClosed.
use iocp_netlib.Base.{ℕ, ◌^◌, ◌<◌, ◌≡◌, inl, inr, Bool, true, false, arith, ◌==◌, Bool-cases}
use iocp_netlib.Config.{system_error}
use iocp_netlib.Client.{
  Pools, Session, IoContext, OpType, conn_closed, conn_connected, op_connectex_timeout,
  increase_io_count, decrease_io_count, remove_client, is_active, alloc_block, set_disconnect,
}
use iocp_netlib.Client.Post.{post_special, check_release}
use iocp_netlib.Client.Complete.{
  Splitter, on_complete_operation, done_operation, on_connect_ex_completion,
}

-- Where the client's memory is free while the system still holds its requests, and the application
-- has not been told of the end.
abbrev pub LostFrom : Session → Session → Type 0
LostFrom s t = (t.registered ≡ false) × (t.io ≡ s.io) × (t.events ≡ s.events)

module _ (s : Session) (p : Pools) (known : s.registered ≡ true) (one : s.client.pending_io ≡ 1)
    (st : s.client.conn_state ≡ conn_connected) (free : s.client.reference_count ≡ 0) where
  undone : Session
  undone = record s { client = decrease_io_count (increase_io_count s.client); pools = p }

  undone-LostFrom : LostFrom s (check_release undone)
  unfolding undone check_release remove_client is_active
  undone-LostFrom = ground (arith, known, one, st, free)

-- PostSpecial for a connected client with one request counted and no reference to it (as checkStatus
-- calls it), when it fails, for lack of a context or because the system refuses it: the failure path
-- counts down twice, so the client is freed with the requests in flight as they were, and OnClosed is
-- not called.
pub post_special-LostFrom :
    (s : Session) (op : OpType) (fresh : ℕ) (taken : Bool)
    → s.registered ≡ true
    → s.client.pending_io ≡ 1
    → s.client.conn_state ≡ conn_connected
    → s.client.reference_count ≡ 0
    → (post_special op fresh taken s).0 ≡ system_error
    → LostFrom s (post_special op fresh taken s).1
unfolding post_special undone
post_special-LostFrom s op fresh taken known one st free failed =
    elim (Bool-cases ((alloc_block fresh s.pools.exception_contexts).0 == 0)) [
      | inl e ↦ rw e (undone-LostFrom s _ known one st free)
      | inr e ↦ elim (Bool-cases taken) [
        | inl t ↦ absurd (ground (arith, failed, e, t))
        | inr t ↦ rw (e, t) (undone-LostFrom s _ known one st free)
      ]
    ]

-- The time-out of ConnectServer that is processed after the connection has been made, with another
-- request in flight: the connection counts as closed although its socket stays as open as it was, and
-- OnClosed is not called.
pub connect_timeout_late :
    (split : Splitter) (s : Session) (x : IoContext) (n now : ℕ) (taken : Bool)
    → x.operation_type ≡ op_connectex_timeout
    → s.client.conn_state ≡ conn_connected
    → 1 < s.client.pending_io
    → s.client.pending_io < 2 ^ 31
    → let t = on_complete_operation split true x n now taken s in
      (t.client.conn_state ≡ conn_closed)
      × (t.client.socket_open ≡ s.client.socket_open)
      × (t.events ≡ s.events)
unfolding on_complete_operation done_operation on_connect_ex_completion set_disconnect check_release
connect_timeout_late split s x n now taken op st lo hi = ground (arith, op, st)
