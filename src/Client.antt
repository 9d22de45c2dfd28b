-- ===== src/Client.antt =====
-- Netlib/TcpClient.h, Netlib/TcpClient.cpp and Netlib/IOContext.h: one connection of a service, from its
-- socket to the pools that it shares with the others. The results of the system's calls (WSARecv,
-- WSASend, PostQueuedCompletionStatus, operator new, the tick count) are arguments of each operation.
pub mod Post
pub mod Complete
pub mod Life
pub mod Special
pub mod Connect
mod Tests
use iocp_netlib.Base.{
  ◌++◌, ℕ, ◌+◌, ◌-◌, ◌%◌, ◌^◌, Bool, true, false, not, Option, none, some, List, [], ◌∷◌, ltb, ◌==◌,
  if◌then◌else◌,
}
use iocp_netlib.Config.{NetServiceErr, success}
use iocp_netlib.DynamicPool.{DynamicMemoryPool}
use iocp_netlib.DynamicPool

pub data OpType : Type 0 where
  op_idle op_accept op_recv op_send op_timeout op_closed op_exit op_connectex op_connectex_timeout :
      OpType

pub data ConnState : Type 0 where
  conn_closed conn_connected conn_closing : ConnState

-- IOContext: `address` is where it lies, `pointer` is mPointer and `len` is mBuffer.len.
pub record IoContext : Type 0 where
  pub address : ℕ
  pub operation_type : OpType
  pub pointer : ℕ
  pub len : ℕ

-- The calls of IIOCallback about this connection.
pub data Event : Type 0 where
  on_connected : ℕ → ℕ → ℕ → Event
  on_closed : ℕ → ℕ → ℕ → NetServiceErr → Event

-- `recv_op` is mRecvContext.mOperationType, `socket_open` is the negation of mSocket.IsInvalid(), and
-- `connect_sem` is the count of mConnctRemoteSem, `none` if it is closed.
pub record TcpClient : Type 0 where
  pub logic_socket_id : ℕ
  pub pending_io : ℕ
  pub reference_count : ℕ
  pub conn_state : ConnState
  pub recv_op : OpType
  pub last_tick_time : ℕ
  pub socket_open : Bool
  pub remote_ip : ℕ
  pub remote_port : ℕ
  pub recv_bytes : ℕ
  pub recv_packet_buffer : ℕ
  pub last_error_code : NetServiceErr
  pub marked_destroy : Bool
  pub close_after_send : Bool
  pub connect_sem : Option ℕ

-- The pools of the TcpService; `none` is the null pointer.
pub record Pools : Type 0 where
  pub clients : Option DynamicMemoryPool
  pub send_contexts : Option DynamicMemoryPool
  pub send_packets : Option DynamicMemoryPool
  pub recv_packets : Option DynamicMemoryPool
  pub exception_contexts : Option DynamicMemoryPool

-- A client with its surroundings: its address, whether mTcpClientMap still holds it (once it does not, its memory is
-- free), the requests that the system holds for it, and the calls that the application has seen.
pub record Session : Type 0 where
  pub address : ℕ
  pub client : TcpClient
  pub registered : Bool
  pub pools : Pools
  pub io : List IoContext
  pub events : List Event

abbrev pub set_client : Session → TcpClient → Session
set_client s c = record s { client = c }

-- The call of OnConnected
abbrev pub report_connected : Session → Session
report_connected s =
    let c = s.client in
    record s {
      events = s.events ++ (on_connected c.logic_socket_id c.remote_ip c.remote_port ∷ []);
    }

-- Reset, at the tick count `now`; the receive context and the buffers are zeroed.
unfoldable pub reset : ℕ → TcpClient
reset now = record {
  logic_socket_id = 0;
  pending_io = 0;
  reference_count = 0;
  conn_state = conn_closed;
  recv_op = op_idle;
  last_tick_time = now;
  socket_open = false;
  remote_ip = 0;
  remote_port = 0;
  recv_bytes = 0;
  recv_packet_buffer = 0;
  last_error_code = success;
  marked_destroy = false;
  close_after_send = false;
  connect_sem = none;
}

-- InterlockedIncrement and InterlockedDecrement of a long of 32 bits, as an unsigned number.
abbrev pub increment : ℕ → ℕ
increment n = (n + 1) % 2 ^ 32

abbrev pub decrement : ℕ → ℕ
decrement n = (n + 2 ^ 32 - 1) % 2 ^ 32

unfoldable pub increase_ref : TcpClient → TcpClient
increase_ref c = record c { reference_count = increment c.reference_count }

unfoldable pub decrease_ref : TcpClient → TcpClient
decrease_ref c = record c { reference_count = decrement c.reference_count }

-- mReferenceCount > 0 as a signed number.
unfoldable pub is_active : TcpClient → Bool
is_active c = if c.reference_count == 0 then false else ltb c.reference_count (2 ^ 31)

unfoldable pub is_accepting : TcpClient → Bool
is_accepting c = elim c.recv_op [ op_accept ↦ true | _ ↦ false ]

unfoldable pub close_socket : TcpClient → TcpClient
close_socket c = record c { conn_state = conn_closing; socket_open = false }

unfoldable pub cancel_io : TcpClient → TcpClient
cancel_io c = record c { socket_open = false }

abbrev pub increase_io_count : TcpClient → TcpClient
increase_io_count c = record c { pending_io = increment c.pending_io }

abbrev pub decrease_io_count : TcpClient → TcpClient
decrease_io_count c = record c { pending_io = decrement c.pending_io }

-- SetDisconnect
unfoldable pub set_disconnect : NetServiceErr → TcpClient → TcpClient
set_disconnect err c = elim c.conn_state [
  | conn_connected ↦ record c {
    conn_state = conn_closing;
    last_error_code = err;
    socket_open = false;
  }
  | _ ↦ c
]

-- The Alloc functions of TcpService: null without a pool.
unfoldable pub alloc_block : ℕ → Option DynamicMemoryPool → ℕ × Option DynamicMemoryPool
alloc_block fresh none = (0, none)
alloc_block fresh (some p) = let (x, p') = DynamicPool.create fresh p in (x, some p')

-- The Release functions of TcpService. Without a pool, or when the assert of Free fails, the program
-- ends; here nothing changes.
unfoldable pub release_block : ℕ → Option DynamicMemoryPool → Option DynamicMemoryPool
release_block x none = none
release_block x (some p) = elim (DynamicPool.free x p) [
  | none ↦ some p
  | some (deleted, p') ↦ some p'
]

-- TcpService::RemoveClient for this client.
unfoldable pub remove_client : Session → Session
remove_client s =
    if s.registered
    then (if is_active s.client
        then set_client s (record s.client { marked_destroy = true })
        else record s {
          registered = false;
          pools = record s.pools { clients = release_block s.address s.pools.clients };
        })
    else s
