-- ===== src/Client/Tests.antt =====
-- Netlib/TcpClient.cpp: the theorems at a connected client.
use iocp_netlib.Base.{◌+◌, ◌++◌, ◌⊎◌, ◌≡◌, refl, true, false, Option, some, [], ◌∷◌, arith}
use iocp_netlib.Config.{success, system_error}
use iocp_netlib.DynamicPool.{DynamicMemoryPool}
use iocp_netlib.DynamicPool
use iocp_netlib.Client.{
  Session, IoContext, op_recv, op_timeout, op_connectex_timeout, conn_closed, conn_connected,
  on_connected, alloc_block, set_client,
}
use iocp_netlib.Client.Post.{post_special, recv_context}
use iocp_netlib.Client.Complete.{Splitter, on_complete_operation}
use iocp_netlib.Client.Connect.{Answers, post_connect, connect_context, Undone, post_connect-cases}
use iocp_netlib.Client.Special.{LostFrom, post_special-LostFrom, connect_timeout_late}

abbrev pool : Option DynamicMemoryPool
pool = some (record { cache = []; elem_size = 4096; max_cache = 4; used_count = 1 })

-- Connected, with its receive in flight.
abbrev connected : Session
connected = record {
  address = 800;
  client = record {
    logic_socket_id = 7;
    pending_io = 1;
    reference_count = 0;
    conn_state = conn_connected;
    recv_op = op_recv;
    last_tick_time = 0;
    socket_open = true;
    remote_ip = 99;
    remote_port = 5000;
    recv_bytes = 0;
    recv_packet_buffer = 0;
    last_error_code = success;
    marked_destroy = false;
    close_after_send = false;
    connect_sem = some 1;
  };
  registered = true;
  pools = record {
    clients = pool;
    send_contexts = pool;
    send_packets = pool;
    recv_packets = pool;
    exception_contexts = pool;
  };
  io = recv_context ∷ [];
  events = on_connected 7 99 5000 ∷ [];
}

-- The system refuses the completion of a time-out.
post_special_refused : (post_special op_timeout 640 false connected).0 ≡ system_error
unfolding post_special alloc_block DynamicPool.create
post_special_refused = refl

post_special-LostFrom_example : LostFrom connected (post_special op_timeout 640 false connected).1
post_special-LostFrom_example =
    post_special-LostFrom connected op_timeout 640 false refl refl refl refl post_special_refused

abbrev splitter : Splitter
splitter c p n = record { ret = success; bytes = 0; buffer = 0; pool = p }

abbrev late : IoContext
late = record { address = 640; operation_type = op_connectex_timeout; pointer = 0; len = 0 }

abbrev busy : Session
busy = set_client connected (record connected.client { pending_io = 2 })

connect_timeout_late_test :
    ((on_complete_operation splitter true late 0 20 true busy).client.conn_state ≡ conn_closed)
    × ((on_complete_operation splitter true late 0 20 true busy).client.socket_open ≡ true)
    × ((on_complete_operation splitter true late 0 20 true busy).events ≡ busy.events)
connect_timeout_late_test =
    connect_timeout_late splitter busy late 0 20 true refl refl (omega arith) (omega arith)

-- Nothing is in flight for a client that is to connect.
abbrev idle : Session
idle = record (set_client connected (record connected.client { pending_io = 0 })) {
  io = [];
  events = [];
}

abbrev all_answers : Answers
all_answers = record {
  ip = some 77;
  semaphore = true;
  attached = true;
  extension = true;
  bound = true;
  connecting = true;
}

post_connect-cases_example :
    (((post_connect all_answers 80 idle).0 ≡ true)
      × ((post_connect all_answers 80 idle).1.client.pending_io ≡ 0 + 1)
      × ((post_connect all_answers 80 idle).1.io ≡ idle.io ++ (connect_context ∷ []))
      × (some 77 ≡ some (post_connect all_answers 80 idle).1.client.remote_ip)
      × ((post_connect all_answers 80 idle).1.client.remote_port ≡ 80)
      × ((post_connect all_answers 80 idle).1.client.connect_sem ≡ some 0))
    ⊎ (((post_connect all_answers 80 idle).0 ≡ false)
        × Undone all_answers idle (post_connect all_answers 80 idle).1)
post_connect-cases_example = post_connect-cases all_answers 80 idle (omega arith)
