-- ===== src/Lifecycle.antt =====
-- Netlib/TcpService.cpp, StartNetService and StopNetService, and Netlib/NetService.cpp, the object that
-- applications hold: a service from its start to its end, and its entry in the core.
pub mod Entries
pub mod Entered
pub mod Dangling
mod Tests
use iocp_netlib.Base.{
  ℕ, ◌+◌, ◌*◌, Bool, true, false, not, ◌&&◌, Option, none, some, List, [], ◌∷◌, ◌==◌, if◌then◌else◌,
}
use iocp_netlib.Config.{NetServiceErr, success, invalid_param, system_error, is_success, err_code}
use iocp_netlib.Timer.{CTimer, is_timed, set_timer}
use iocp_netlib.CompletionPort.{NetCore, get_next_service_id, add_service, remove_service}

-- Which pool pointers are not null.
pub record PoolPtrs : Type 0 where
  pub clients : Bool
  pub send_contexts : Bool
  pub send_packets : Bool
  pub recv_packets : Bool
  pub exception_contexts : Bool

abbrev pub no_pools : PoolPtrs
no_pools = record {
  clients = false;
  send_contexts = false;
  send_packets = false;
  recv_packets = false;
  exception_contexts = false;
}

pub record Params : Type 0 where
  pub listen_port : ℕ
  pub listen_backlog : ℕ
  pub max_connection : ℕ
  pub max_packet_size : ℕ
  pub packet_size_offset : ℕ
  pub client_timeout_sec : ℕ
  pub protocol_type : ℕ

-- The fields of a TcpService that its start and stop write; `address` is the object itself.
pub record TcpService : Type 0 where
  pub address : ℕ
  pub service_id : ℕ
  pub has_core : Bool
  pub marked_stop : Bool
  pub params : Params
  pub pools : PoolPtrs
  pub check_status_timer : CTimer
  pub log_stats_timer : CTimer
  pub acceptor : Bool
  pub release_event : Bool

-- What operator new gives for the pools, and CreateEvent, operator new and TcpAcceptor::Initialize for
-- the acceptor, the last one with the backlog it is given; `now` is the tick count.
pub record StartAnswers : Type 0 where
  pub pools : PoolPtrs
  pub event : Bool
  pub acceptor : Bool
  pub initialize : ℕ → NetServiceErr
  pub now : ℕ

-- CreateAllPool: 0, or NSE_SYSTEM_ERROR at the first pool that is not created.
unfoldable pub create_all_pool : PoolPtrs → PoolPtrs → Bool × PoolPtrs
create_all_pool a p =
    if not a.clients
    then (false, record p { clients = false })
    else if not a.send_contexts
    then (false, record p { clients = true; send_contexts = false })
    else if not a.send_packets
    then (false, record p { clients = true; send_contexts = true; send_packets = false })
    else if not a.recv_packets
    then (
      false,
      record p { clients = true; send_contexts = true; send_packets = true; recv_packets = false },
    )
    else (
      a.exception_contexts,
      record p {
        clients = true;
        send_contexts = true;
        send_packets = true;
        recv_packets = true;
        exception_contexts = a.exception_contexts;
      },
    )

-- The first start gives the service its id and enters it into the core.
unfoldable pub enter : TcpService → NetCore → TcpService × NetCore
enter s c =
    let (id, c') = get_next_service_id c in
    if s.service_id == 0
    then (record s { service_id = id }, add_service id s.address c')
    else (s, c)

-- The part of StartNetService behind the pools.
unfoldable pub listen : StartAnswers → TcpService → NetServiceErr × TcpService
listen a s =
    let backlog = if s.params.listen_backlog == 0 then 8 else s.params.listen_backlog in
    let ret = a.initialize backlog in
    if s.params.listen_port == 0
    then (success, s)
    else if not a.event
    then (system_error, record s { release_event = false })
    else if not a.acceptor
    then (system_error, record s { release_event = true; acceptor = false })
    else (ret, record s { release_event = true; acceptor = is_success ret })

-- TcpService::StartNetService
unfoldable pub start_net_service :
    StartAnswers → Params → TcpService → NetCore → NetServiceErr × TcpService × NetCore
start_net_service a params s c =
    let (s₁, c') = enter (record s { marked_stop = false; has_core = true }) c in
    let (ok, pools) = create_all_pool a.pools s₁.pools in
    let s₂ = record s₁ { params = params; pools = pools } in
    let (ret, s₃) = listen a (record s₂ {
      check_status_timer = set_timer a.now 5000;
      log_stats_timer = set_timer a.now (60 * 1000);
    }) in
    if ok then (ret, s₃, c') else (system_error, s₂, c')

-- The wait for the clients: in each round the tick count and the clients in the map; whether it ended
-- because there were none.
unfoldable pub wait_clients : List (ℕ × ℕ) → CTimer → Bool
wait_clients [] timer = false
wait_clients ((now, clients) ∷ rounds) timer =
    let (timed, timer') = is_timed now timer in
    let rest = wait_clients rounds timer' in
    if timed then false else if clients == 0 then true else rest

-- TcpService::StopNetService: the pools are released whether the clients have gone or not.
unfoldable pub stop_net_service : TcpService → NetCore → TcpService × NetCore
stop_net_service s c =
    let stops = s.acceptor && s.release_event in
    if s.marked_stop then (s, c) else (
      record s {
        marked_stop = true;
        acceptor = if stops then false else s.acceptor;
        release_event = if stops then false else s.release_event;
        pools = no_pools;
      },
      if s.has_core then remove_service s.service_id c else c,
    )

-- A NetService, with its TcpService or null.
abbrev pub NetService : Type 0
NetService = Option TcpService

-- NetService::StopNetService: the service is deleted, and its destructor stops it again.
unfoldable pub stop : NetService → NetCore → NetService × NetCore
stop none c = (none, c)
stop (some s) c = let (s', c') = stop_net_service s c in (none, (stop_net_service s' c').1)

-- NetService::StartNetService; `has_core` is whether the core is there.
unfoldable pub start :
    Bool → StartAnswers → Params → NetService → NetCore → NetServiceErr × NetService × NetCore
start has_core a params v c = elim v [
  | none ↦ if has_core then (system_error, none, c) else (invalid_param, none, c)
  | some s ↦
      let (ret, s', c') = start_net_service a params s c in
      let (none_left, c₁) = stop (some s) c in
      let (gone, c₂) = stop (some s') c' in
      if not has_core
      then (invalid_param, none_left, c₁)
      else if is_success ret
      then (ret, some s', c')
      else (ret, gone, c₂)
]

-- The other calls go on to the service; without one they return NSE_SYSTEM_ERROR, ConnectServer and
-- GetConnectionCount its number.
unfoldable pub send : (TcpService → NetServiceErr) → NetService → NetServiceErr
send f v = elim v [ none ↦ system_error | some s ↦ f s ]

unfoldable pub close_socket : (TcpService → NetServiceErr) → NetService → NetServiceErr
close_socket f v = elim v [ none ↦ system_error | some s ↦ f s ]

unfoldable pub connect_server : (TcpService → ℕ) → NetService → ℕ
connect_server f v = elim v [ none ↦ err_code system_error | some s ↦ f s ]

unfoldable pub get_connection_count : (TcpService → ℕ) → NetService → ℕ
get_connection_count f v = elim v [ none ↦ err_code system_error | some s ↦ f s ]
