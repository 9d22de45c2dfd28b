-- ===== src/Client/Complete.antt =====
-- Netlib/TcpClient.cpp: what a worker thread does with a request that the system has completed.
use iocp_netlib.Base.{ℕ, Bool, Option, [], ◌∷◌, ◌++◌, ◌==◌, if◌then◌else◌}
use iocp_netlib.Config.{
  NetServiceErr, success, exception, remote_disconnect, timeout, be_closed, connect_failed,
  recv_failed, send_not_complete, is_success,
}
use iocp_netlib.DynamicPool.{DynamicMemoryPool}
use iocp_netlib.Semaphore
use iocp_netlib.Client.{
  TcpClient, Session, IoContext, op_recv, op_send, op_timeout, op_closed, op_connectex,
  op_connectex_timeout, conn_closed, conn_connected, on_connected, set_disconnect, release_block,
  set_client,
}
use iocp_netlib.Client.Post.{check_release, post_recv}

-- What SplitPacket or SplitHttpPacket leaves: its code, mRecvBytes, mRecvPacketBuffer and the pool.
pub record Split : Type 0 where
  pub ret : NetServiceErr
  pub bytes : ℕ
  pub buffer : ℕ
  pub pool : Option DynamicMemoryPool

-- SplitPacket or SplitHttpPacket on `n` received bytes, by the protocol of the service.
abbrev pub Splitter : Type 0
Splitter = TcpClient → Option DynamicMemoryPool → ℕ → Split

-- OnRecvCompletion; `taken` is for the PostRecv.
unfoldable pub on_recv_completion : Splitter → ℕ → Bool → Session → NetServiceErr × Session
on_recv_completion split n taken s =
    let r = split s.client s.pools.recv_packets n in
    let s' = record s {
      client = record s.client { recv_bytes = r.bytes; recv_packet_buffer = r.buffer };
      pools = record s.pools { recv_packets = r.pool };
    } in
    let (posted, s₂) = post_recv taken s' in
    if n == 0
    then (remote_disconnect, s)
    else if is_success r.ret
    then (if posted then (success, s₂) else (recv_failed, s₂))
    else (r.ret, s')

-- OnSendCompletion
unfoldable pub on_send_completion : IoContext → ℕ → Session → NetServiceErr × Session
on_send_completion x n s =
    let ret =
      if n == x.len
      then (if s.client.close_after_send then be_closed else success)
      else send_not_complete in
    (
      ret,
      record s {
        pools = record s.pools {
          send_packets =
              if x.pointer == 0
              then s.pools.send_packets
              else release_block x.pointer s.pools.send_packets;
          send_contexts = release_block x.address s.pools.send_contexts;
        };
      },
    )

-- OnConnectExCompletion; a code of 0 is `success`.
unfoldable pub on_connect_ex_completion : NetServiceErr → Bool → Session → Session
on_connect_ex_completion err taken s =
    let (posted, s') =
      post_recv taken (set_client s (record s.client { conn_state = conn_connected })) in
    let c = s'.client in
    if is_success err
    then (if posted
        then record s' {
          client = record c { connect_sem = Semaphore.post c.connect_sem };
          events = s'.events ++ (on_connected c.logic_socket_id c.remote_ip c.remote_port ∷ []);
        }
        else set_client s' (set_disconnect exception c))
    else set_client s (
        set_disconnect err (record s.client {
          conn_state = conn_closed;
          connect_sem = Semaphore.post s.client.connect_sem;
        }))

abbrev pub release_exception_context : IoContext → Session → Session
release_exception_context x s = record s {
  pools = record s.pools {
    exception_contexts = release_block x.address s.pools.exception_contexts;
  };
}

-- The two branches of OnCompleteOperation up to SetDisconnect: the code it disconnects with, `success`
-- for none.
unfoldable pub failed_operation : IoContext → Bool → Session → NetServiceErr × Session
failed_operation x taken s = elim x.operation_type [
  | op_send ↦ (
    exception,
    record s {
      pools = record s.pools {
        send_packets = release_block x.pointer s.pools.send_packets;
        send_contexts = release_block x.address s.pools.send_contexts;
      };
    },
  )
  | op_recv ↦ (remote_disconnect, s)
  | op_connectex ↦ (exception, on_connect_ex_completion connect_failed taken s)
  | _ ↦ (exception, s)
]

unfoldable pub done_operation : Splitter → IoContext → ℕ → Bool → Session → NetServiceErr × Session
done_operation split x n taken s = elim x.operation_type [
  | op_recv ↦ on_recv_completion split n taken s
  | op_send ↦ on_send_completion x n s
  | op_timeout ↦ (timeout, release_exception_context x s)
  | op_closed ↦ (be_closed, release_exception_context x s)
  | op_connectex ↦ (success, on_connect_ex_completion success taken s)
  | op_connectex_timeout ↦
      (success, on_connect_ex_completion timeout taken (release_exception_context x s))
  | _ ↦ (success, s)
]

-- OnCompleteOperation at the tick count `now`, without exceptions.
unfoldable pub on_complete_operation :
    Splitter → Bool → IoContext → ℕ → ℕ → Bool → Session → Session
on_complete_operation split ok x n now taken s =
    let s' = set_client s (record s.client { last_tick_time = now }) in
    let (ret, s₂) = if ok then done_operation split x n taken s' else failed_operation x taken s' in
    check_release (if is_success ret then s₂ else set_client s₂ (set_disconnect ret s₂.client))
