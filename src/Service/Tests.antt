-- ===== src/Service/Tests.antt =====
-- Netlib/TcpService.cpp: runs, and the theorems at a service with one client.
use iocp_netlib.Base.{
  ℕ, ◌+◌, ◌^◌, ◌≤◌, ◌<◌, ◌≡◌, refl, ◌≢◌, ◌⊎◌, true, false, Option, none, some, [], ◌∷◌, ◌++◌, arith,
}
use iocp_netlib.Config.{NetServiceErr, success, illegal_send_packet, invalid_socket}
use iocp_netlib.DynamicPool.{DynamicMemoryPool}
use iocp_netlib.Client.{
  IoContext, op_recv, conn_closed, conn_connected, on_connected, increase_ref, set_client,
  is_active, is_accepting,
}
use iocp_netlib.Client.Post.{post_send, recv_context}
use iocp_netlib.Service.{
  Entry, TcpService, view, find_client, send, check_status, get_connection_count, is_timed_out,
  timeout_ms, set_timeout,
}
use iocp_netlib.Service.Send.{send-find_client}
use iocp_netlib.Service.Check.{Checked, check_status-Checked, check_status_posted}

abbrev pool : Option DynamicMemoryPool
pool = some (record { cache = []; elem_size = 4096; max_cache = 4; used_count = 1 })

abbrev entry : Entry
entry = record {
  key = 7;
  address = 800;
  client = record {
    logic_socket_id = 7;
    pending_io = 1;
    reference_count = 0;
    conn_state = conn_connected;
    recv_op = op_recv;
    last_tick_time = 100;
    socket_open = true;
    remote_ip = 99;
    remote_port = 5000;
    recv_bytes = 0;
    recv_packet_buffer = 0;
    last_error_code = success;
    marked_destroy = false;
    close_after_send = false;
    connect_sem = none;
  };
  io = recv_context ∷ [];
  events = on_connected 7 99 5000 ∷ [];
}

abbrev pub service : TcpService
service = record {
  clients = entry ∷ [];
  pools = record {
    clients = pool;
    send_contexts = pool;
    send_packets = pool;
    recv_packets = pool;
    exception_contexts = pool;
  };
  marked_stop = false;
  max_packet_size = 1024;
  client_timeout_sec = 30;
}

one_connection : get_connection_count service ≡ 1
unfolding get_connection_count is_accepting
one_connection = refl

silent : is_timed_out 30 30101 entry.client ≡ true
unfolding is_timed_out timeout_ms
silent = refl

just_in_time : is_timed_out 30 30100 entry.client ≡ false
unfolding is_timed_out timeout_ms
just_in_time = refl

few : (e : Entry) → find_client 7 service ≡ some e → e.client.reference_count + 1 < 2 ^ 31
unfolding find_client
few e f = ground (arith, f)

abbrev sent : NetServiceErr × TcpService
sent = send 7 100 640 656 true service

send-find_client_example :
    ((1024 < 100) × (sent ≡ (illegal_send_packet, service)))
    ⊎ ((100 ≤ 1024) × (find_client 7 service ≡ none) × (sent ≡ (invalid_socket, service)))
    ⊎ ((e : Entry) × (e' : Entry) × (find_client 7 service ≡ some e)
        × (sent.0
            ≡ (post_send 100 640 656 true
                (set_client (view service.pools e) (increase_ref e.client))).0)
        × (find_client 7 sent.1 ≡ some e')
        × (e'.client.reference_count ≡ e.client.reference_count)
        × ((other : ℕ) → 7 ≢ other → find_client other sent.1 ≡ find_client other service))
send-find_client_example = send-find_client service 7 100 640 656 true (omega arith) few

check_status-Checked_example :
    (v' : TcpService) × (check_status 30101 (λ _. 640) (λ _. true) service ≡ some v')
    × Checked 30 30101 service.clients v'.clients
check_status-Checked_example =
    check_status-Checked service 30101 (λ _. 640) (omega arith) (λ _. omega arith) tt

-- The same client, marked, at its end.
abbrev ended : Entry
ended = record entry {
  client = record entry.client { marked_destroy = true; conn_state = conn_closed };
}

ended_inactive : is_active ended.client ≡ false
unfolding is_active
ended_inactive = refl

ended_silent : (is_accepting ended.client ≡ false) × (is_timed_out 30 30101 ended.client ≡ true)
unfolding is_accepting is_timed_out timeout_ms
ended_silent = (refl, refl)

silent_client_freed :
    (v' : TcpService) × (x : IoContext) × ((set_timeout 640 true (view service.pools ended)).io
      ≡ ended.io ++ (x ∷ []))
    × (check_status 30101 (λ _. 640) (λ _. true) (record service { clients = ended ∷ [] })
        ≡ some v')
    × (v'.clients ≡ [])
silent_client_freed =
    check_status_posted (record service { clients = ended ∷ [] }) ended 30101 (λ _. 640) refl
      (λ _. omega arith) tt ended_silent.0 ended_silent.1 (rw ended_inactive refl)
