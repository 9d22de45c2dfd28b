-- ===== src/Lifecycle/Tests.antt =====
-- Runs of the models of Netlib/NetService.cpp and Netlib/TcpService.cpp.
use mathlib.Core.List.{Mem}
use iocp_netlib.Base.{◌≡◌, refl, arith, true, false, none, some, [], ◌∷◌, ◌==◌, if◌then◌else◌}
use iocp_netlib.Config.{NetServiceErr, success, system_error, err_code}
use iocp_netlib.Timer.{is_timed, set_timer}
use iocp_netlib.CompletionPort.{
  NetCore, construct, add_service, get_next_service_id, erase, insert, remove_service,
}
use iocp_netlib.CompletionPort.Assist.{services}
use iocp_netlib.Lifecycle.{
  TcpService, no_pools, Params, StartAnswers, NetService, start, stop, wait_clients,
  start_net_service, stop_net_service, enter, listen, create_all_pool, connect_server,
  get_connection_count,
}
use iocp_netlib.Lifecycle.Entries.{OnlyAt}
use iocp_netlib.Lifecycle.Dangling.{
  Reach, here, next, starts, stops, other_enters, Reach-no_dangling,
}

abbrev fresh : TcpService
fresh = record {
  address = 7;
  service_id = 0;
  has_core = false;
  marked_stop = false;
  params = record {
    listen_port = 0;
    listen_backlog = 0;
    max_connection = 0;
    max_packet_size = 0;
    packet_size_offset = 0;
    client_timeout_sec = 0;
    protocol_type = 0;
  };
  pools = no_pools;
  check_status_timer = record { mill_timeout = 0; last_mill_time = 0 };
  log_stats_timer = record { mill_timeout = 0; last_mill_time = 0 };
  acceptor = false;
  release_event = false;
}

abbrev server : Params
server = record {
  listen_port = 7000;
  listen_backlog = 0;
  max_connection = 100;
  max_packet_size = 4096;
  packet_size_offset = 0;
  client_timeout_sec = 60;
  protocol_type = 0;
}

-- The system grants everything, and listens with the backlog 8 only.
abbrev granted : StartAnswers
granted = record {
  pools = record {
    clients = true;
    send_contexts = true;
    send_packets = true;
    recv_packets = true;
    exception_contexts = true;
  };
  event = true;
  acceptor = true;
  initialize = λ backlog. if backlog == 8 then success else system_error;
  now = 1000;
}

abbrev no_memory : StartAnswers
no_memory = record granted { pools = no_pools }

-- A start and a stop.
abbrev up : NetServiceErr × NetService × NetCore
up = start true granted server (some fresh) construct

up_result : (up.0 ≡ success) × (services up.2.service_map ≡ 7 ∷ [])
unfolding start start_net_service create_all_pool stop stop_net_service enter remove_service
    construct add_service get_next_service_id insert erase services listen set_timer
up_result = (refl, refl)

-- A start without memory leaves no service.
fails :
    start true no_memory server (some fresh) construct
    ≡ (system_error, none, record construct { next_service_id = 1 })
unfolding start start_net_service create_all_pool stop stop_net_service enter remove_service
    construct add_service get_next_service_id insert erase listen
fails = refl

waits :
    (wait_clients ((0, 3) ∷ (100, 0) ∷ []) (set_timer 0 600) ≡ true)
    × (wait_clients ((0, 3) ∷ (300, 2) ∷ (700, 1) ∷ []) (set_timer 0 600) ≡ false)
unfolding wait_clients is_timed set_timer
waits = (refl, refl)

calls : (connect_server (λ _. 1) none ≡ 3) × (get_connection_count (λ _. 1) none ≡ 3)
unfolding connect_server get_connection_count err_code
calls = (refl, refl)

-- A start, another service, a stop.
abbrev run : NetService × NetCore
run =
    let u = start true granted server (some fresh) construct in
    let c = add_service (get_next_service_id u.2).0 9 (get_next_service_id u.2).1 in stop u.1 c

run-reached : Reach 7 (some fresh) construct run.0 run.1
unfolding construct
run-reached =
    next
      (next (next here (starts true granted server (ground arith)))
        (other_enters 9 (λ e. omega arith)))
      stops

ended : run.0 ≡ none
unfolding stop start start_net_service listen create_all_pool enter get_next_service_id construct
ended = refl

free : OnlyAt none 7 construct.service_map
unfolding construct
free = tt

Reach-no_dangling_example : ¬ Mem 7 (services run.1.service_map)
Reach-no_dangling_example = Reach-no_dangling fresh construct refl refl free run-reached ended
