-- ===== src/Service/ConnectTests.antt =====
-- Runs of the model of Netlib/TcpService.cpp, ConnectServer.
use iocp_netlib.Base.{◌^◌, ◌<◌, ◌≡◌, refl, ap, ◌∙◌, ◌⊎◌, Bool, true, Option, none, some, arith}
use iocp_netlib.DynamicPool
use iocp_netlib.Client.{Session, conn_connected, set_client, reset, alloc_block}
use iocp_netlib.Client.Connect.{post_connect}
use iocp_netlib.Service.{Entry, TcpService, view, node, find_client, put_back, alloc_tcp_client}
use iocp_netlib.Service.Send.{find-put_self}
use iocp_netlib.Service.Connect.{
  ConnectAnswers, connect_begin, connect_client, connect_end, connect_server,
}
use iocp_netlib.Service.Connecting.{OthersKept, NotThere, Waits}
use iocp_netlib.Service.Server.{Ended, connect_server-cases}
use iocp_netlib.Service.Tests.{service}

abbrev answers : ConnectAnswers
answers = record {
  semaphore = true;
  next_id = 8;
  now = 500;
  fresh = 900;
  created = true;
  connect = record {
    ip = some 77;
    semaphore = true;
    attached = true;
    extension = true;
    bound = true;
    connecting = true;
  };
}

abbrev connected : TcpService → Entry → Session
connected w e = set_client (view w.pools e) (record e.client { conn_state = conn_connected })

-- The connection is made during the wait.
abbrev meanwhile : TcpService → Bool × TcpService
meanwhile w = (true, elim (find_client 8 w) [ none ↦ w | some e ↦ put_back 8 (connected w e) w ])

made :
    (w : TcpService) (e : Entry)
    → find_client 8 w ≡ some e
    → (meanwhile w).1 ≡ put_back 8 (connected w e) w
made w e found =
    ap (λ (o : Option Entry). elim o [ none ↦ w | some x ↦ put_back 8 (connected w x) w ]) found

still_held :
    (w : TcpService)
    → Waits answers.connect 8 80 w
    → (e : Entry) × (find_client 8 (meanwhile w).1 ≡ some e)
      × (0 < e.client.reference_count)
      × (e.client.reference_count < 2 ^ 32)
unfolding find_client
still_held w (e, found, once, _, _, _, _, _) = (
  node 8 (connected w e),
  ap (find_client 8) (made w e found) ∙ find-put_self 8 (connected w e) w.clients e refl found,
  omega (arith, once),
  omega (arith, once),
)

new_id : find_client 8 service ≡ none
unfolding find_client
new_id = refl

connect_server-cases_example :
    (((connect_server 0 answers 80 meanwhile 700 true service).0 ≡ 0)
      × NotThere 8 service (connect_server 0 answers 80 meanwhile 700 true service).1)
    ⊎ ((w : TcpService) × (e : Entry) × Waits answers.connect 8 80 w
        × OthersKept 8 service w
        × (find_client 8 (meanwhile w).1 ≡ some e)
        × Ended 8 true e (meanwhile w).1 (connect_server 0 answers 80 meanwhile 700 true service))
connect_server-cases_example =
    connect_server-cases 0 answers 80 meanwhile 700 true service new_id still_held

returns_id : (connect_server 0 answers 80 meanwhile 700 true service).0 ≡ 8
unfolding connect_server connect_begin connect_client connect_end alloc_tcp_client alloc_block
    find_client post_connect reset DynamicPool.create
returns_id = refl

-- A service that listens cannot connect.
listens : connect_server 7000 answers 80 meanwhile 700 true service ≡ (0, service)
unfolding connect_server connect_begin
listens = refl
