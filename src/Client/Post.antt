-- ===== src/Client/Post.antt =====
-- Netlib/TcpClient.cpp: the operations that give a request to the system.
use iocp_netlib.Base.{ℕ, Bool, true, false, [], ◌∷◌, ◌++◌, ◌==◌, if◌then◌else◌}
use iocp_netlib.Config.{NetServiceErr, success, system_error, send_queue_full}
use iocp_netlib.Client.{
  Session, IoContext, OpType, op_recv, op_send, conn_closed, conn_closing, on_closed,
  increase_io_count, decrease_io_count, remove_client, alloc_block, release_block, set_client,
}

-- The system takes the request.
abbrev pub request : IoContext → Session → Session
request x s = record s { io = s.io ++ (x ∷ []) }

-- The end of the connection in CheckRelease: the receive block goes back, and OnClosed is called.
abbrev pub report_closed : Session → Session
report_closed s =
    let c = s.client in
    record s {
      client = record c { conn_state = conn_closed; recv_packet_buffer = 0 };
      pools = if c.recv_packet_buffer == 0 then s.pools else record s.pools {
        recv_packets = release_block c.recv_packet_buffer s.pools.recv_packets;
      };
      events =
          s.events
          ++ (on_closed c.logic_socket_id c.remote_ip c.remote_port c.last_error_code ∷ []);
    }

-- The part of CheckRelease after the count is zero.
abbrev pub finish : Session → Session
finish s = elim s.client.conn_state [
  | conn_closing ↦ remove_client (report_closed s)
  | _ ↦ remove_client s
]

-- CheckRelease
unfoldable pub check_release : Session → Session
check_release s =
    let s' = set_client s (decrease_io_count s.client) in
    if s'.client.pending_io == 0 then finish s' else s'

-- mRecvContext as SetRecvContextToRecv sets it; it lies in the client, so it has no address of its own.
abbrev pub recv_context : IoContext
recv_context = record { address = 0; operation_type = op_recv; pointer = 0; len = 4096 }

-- PostRecv; `taken` says that WSARecv has the request.
unfoldable pub post_recv : Bool → Session → Bool × Session
post_recv taken s =
    let s' = set_client s (record (increase_io_count s.client) { recv_op = op_recv }) in
    if taken
    then (true, request recv_context s')
    else (false, set_client s' (decrease_io_count s'.client))

-- PostSpecial; `fresh` is for the pool of contexts, and `taken` says that the system has the request.
unfoldable pub post_special : OpType → ℕ → Bool → Session → NetServiceErr × Session
post_special op fresh taken s =
    let s₁ = set_client s (increase_io_count s.client) in
    let (ct, pool) = alloc_block fresh s.pools.exception_contexts in
    let s₂ = record s₁ { pools = record s.pools { exception_contexts = pool } } in
    let undone = set_client s₂ (decrease_io_count s₂.client) in
    if ct == 0
    then (system_error, check_release undone)
    else if taken
    then (success, request (record { address = ct; operation_type = op; pointer = 0; len = 0 }) s₂)
    else (
      system_error,
      check_release (record undone {
        pools = record s₂.pools { exception_contexts = release_block ct pool };
      }),
    )

-- PostSend of `len` bytes; `fresh_context` and `fresh_packet` are for the pools, and `taken` says that
-- WSASend has the request.
unfoldable pub post_send : ℕ → ℕ → ℕ → Bool → Session → NetServiceErr × Session
post_send len fresh_context fresh_packet taken s =
    let (context, contexts) = alloc_block fresh_context s.pools.send_contexts in
    let s₁ = record s { pools = record s.pools { send_contexts = contexts } } in
    let (packet, packets) = alloc_block fresh_packet s₁.pools.send_packets in
    let s₂ = record s₁ { pools = record s₁.pools { send_packets = packets } } in
    let s₃ = set_client s₂ (increase_io_count s₂.client) in
    if context == 0
    then (send_queue_full, s₁)
    else if packet == 0
    then (
      send_queue_full,
      record s₂ { pools = record s₂.pools { send_contexts = release_block context contexts } },
    )
    else if taken
    then (
      success,
      request (record { address = context; operation_type = op_send; pointer = packet; len = len })
          s₃,
    )
    else (let s₄ = check_release s₃ in
        (
          system_error,
          record s₄ {
            pools = record s₄.pools {
              send_contexts = release_block context s₄.pools.send_contexts;
              send_packets = release_block packet s₄.pools.send_packets;
            };
          },
        ))
