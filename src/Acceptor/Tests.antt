-- ===== src/Acceptor/Tests.antt =====
-- Netlib/TcpAcceptor.cpp: runs, and the theorems at a client that is accepted.
use iocp_netlib.Base.{◌≡◌, refl, ◌⊎◌, true, false, Option, none, some, [], ◌∷◌, ◌++◌}
use iocp_netlib.Config.{success, remote_disconnect}
use iocp_netlib.DynamicPool.{DynamicMemoryPool}
use iocp_netlib.Client.{
  Session, op_accept, conn_closed, on_connected, on_closed, set_disconnect, remove_client,
  is_active, is_accepting, report_connected,
}
use iocp_netlib.Client.Post.{post_recv, check_release, recv_context}
use iocp_netlib.Client.Complete.{
  Splitter, on_complete_operation, on_recv_completion, done_operation,
}
use iocp_netlib.Client.Life.Reach.{Reach}
use iocp_netlib.Acceptor.{Answers, accept_begin, accept_connection, complete_accept}
use iocp_netlib.Acceptor.Life.{IsFresh, IsGone, IsConnected, complete_accept-cases}

abbrev pool : Option DynamicMemoryPool
pool = some (record { cache = []; elem_size = 4096; max_cache = 4; used_count = 1 })

abbrev fresh : Session
fresh = record {
  address = 800;
  client = record {
    logic_socket_id = 7;
    pending_io = 0;
    reference_count = 0;
    conn_state = conn_closed;
    recv_op = op_accept;
    last_tick_time = 0;
    socket_open = true;
    remote_ip = 0;
    remote_port = 0;
    recv_bytes = 0;
    recv_packet_buffer = 0;
    last_error_code = success;
    marked_destroy = false;
    close_after_send = false;
    connect_sem = none;
  };
  registered = true;
  pools = record {
    clients = pool;
    send_contexts = pool;
    send_packets = pool;
    recv_packets = pool;
    exception_contexts = pool;
  };
  io = [];
  events = [];
}

fresh-IsFresh : IsFresh fresh
fresh-IsFresh = record {
  accepting = refl;
  idle = refl;
  unreferenced = refl;
  known = refl;
  no_io = refl;
  untold = refl;
}

abbrev answers : Answers
answers = record {
  updated = true;
  nodelay = true;
  attached = true;
  peer = some (99, 5000);
  taken = true;
}

-- Its first receive has been posted.
abbrev posted : Session
posted = (accept_begin answers fresh).1

-- The receive completes without bytes: the peer has closed.
abbrev splitter : Splitter
splitter c p n = record { ret = success; bytes = 0; buffer = 0; pool = p }

abbrev ended : Session → Session
ended s = on_complete_operation splitter true recv_context 0 20 false (record s { io = [] ++ [] })

abbrev told_late : Session
told_late = record (ended posted) { events = (ended posted).events ++ (on_connected 0 0 0 ∷ []) }

-- Another worker completes the receive before OnConnected: OnClosed comes first, the client is freed, and
-- OnConnected is called with what lies in its memory.
closed_first :
    (complete_accept true 10 answers ended fresh).events
    ≡ on_closed 7 99 5000 remote_disconnect ∷ on_connected 7 99 5000 ∷ []
unfolding complete_accept accept_connection accept_begin post_recv is_accepting
    on_complete_operation done_operation on_recv_completion check_release set_disconnect
    remove_client is_active
closed_first = refl

in_order :
    (ended (complete_accept true 10 answers (λ s. s) fresh)).events
    ≡ on_connected 7 99 5000 ∷ on_closed 7 99 5000 remote_disconnect ∷ []
unfolding complete_accept accept_connection accept_begin post_recv is_accepting
    on_complete_operation done_operation on_recv_completion check_release set_disconnect
    remove_client is_active
in_order = refl

complete_accept-cases_example :
    ((true ≡ true)
      × ((accept_begin answers fresh).0 ≡ true)
      × IsConnected posted
      × (complete_accept true 10 answers ended fresh ≡ report_connected (ended posted)))
    ⊎ IsGone (complete_accept true 10 answers ended fresh)
complete_accept-cases_example = complete_accept-cases fresh-IsFresh true 10 answers ended
