-- ===== src/Service.antt =====
-- Netlib/TcpService.h and Netlib/TcpService.cpp: the map of clients and the operations on it. Each runs
-- under mTcpClientPoolLock or through a TcpClientRef.
pub mod Send
pub mod Check
pub mod Connect
pub mod Connecting
pub mod Server
mod Tests
mod ConnectTests
use iocp_netlib.Base.{
  ℕ, zero, suc, ◌+◌, ◌-◌, ◌*◌, ◌%◌, ◌^◌, Bool, true, false, not, ◌&&◌, Option, none, some, List, [],
  ◌∷◌, ◌++◌, length, ltb, ◌==◌, if◌then◌else◌,
}
use iocp_netlib.Config.{NetServiceErr, success, illegal_send_packet, invalid_socket}
use iocp_netlib.DynamicPool.{DynamicMemoryPool}
use iocp_netlib.Client.{
  TcpClient, Pools, Session, IoContext, Event, OpType, op_timeout, op_closed, increase_ref,
  decrease_ref, is_active, is_accepting, cancel_io, reset, alloc_block, release_block,
  remove_client, set_client,
}
use iocp_netlib.Client.Post.{post_special, post_send}

-- A node of mTcpClientMap: its key, and the client with its surroundings.
pub record Entry : Type 0 where
  pub key : ℕ
  pub address : ℕ
  pub client : TcpClient
  pub io : List IoContext
  pub events : List Event

-- `clients` are the nodes in the order of their keys.
pub record TcpService : Type 0 where
  pub clients : List Entry
  pub pools : Pools
  pub marked_stop : Bool
  pub max_packet_size : ℕ
  pub client_timeout_sec : ℕ

-- The client of a node as its own operations see it, and back.
abbrev pub view : Pools → Entry → Session
view p e = record {
  address = e.address;
  client = e.client;
  registered = true;
  pools = p;
  io = e.io;
  events = e.events;
}

abbrev pub node : ℕ → Session → Entry
node key s = record {
  key = key;
  address = s.address;
  client = s.client;
  io = s.io;
  events = s.events;
}

abbrev pub find_in : ℕ → List Entry → Option Entry
find_in key [] = none
find_in key (e ∷ es) = if e.key == key then some e else find_in key es

-- FindClient, without the reference that it makes
unfoldable pub find_client : ℕ → TcpService → Option Entry
find_client key v = find_in key v.clients

-- Puts back what an operation on the client has left: the node is erased if RemoveClient freed it.
abbrev pub put_in : ℕ → Session → List Entry → List Entry
put_in key s [] = []
put_in key s (e ∷ es) =
    if e.key == key then (if s.registered then node key s ∷ es else es) else e ∷ put_in key s es

abbrev pub put_back : ℕ → Session → TcpService → TcpService
put_back key s v = record v { clients = put_in key s v.clients; pools = s.pools }

-- An operation through a TcpClientRef, which holds one reference while it runs.
unfoldable pub with_ref : (Session → NetServiceErr × Session) → Session → NetServiceErr × Session
with_ref f s =
    let (ret, s') = f (set_client s (increase_ref s.client)) in
    (ret, set_client s' (decrease_ref s'.client))

-- Send; `len` is nDataLen in 32 bits, and mMaxPacketSize is not negative.
unfoldable pub send : ℕ → ℕ → ℕ → ℕ → Bool → TcpService → NetServiceErr × TcpService
send key len fresh_context fresh_packet taken v =
    if ltb len (2 ^ 31) && ltb v.max_packet_size len
    then (illegal_send_packet, v)
    else elim (find_client key v) [
      | none ↦ (invalid_socket, v)
      | some e ↦
          let (ret, s) =
            with_ref (post_send len fresh_context fresh_packet taken) (view v.pools e) in
          (ret, put_back key s v)
    ]

-- CloseSocket
unfoldable pub close : ℕ → ℕ → Bool → TcpService → NetServiceErr × TcpService
close key fresh taken v = elim (find_client key v) [
  | none ↦ (invalid_socket, v)
  | some e ↦
      let (ret, s) = with_ref (post_special op_closed fresh taken) (view v.pools e) in
      (ret, put_back key s v)
]

-- RemoveClient
unfoldable pub remove : ℕ → TcpService → TcpService
remove key v = elim (find_client key v) [
  | none ↦ v
  | some e ↦ put_back key (remove_client (view v.pools e)) v
]

-- std::map::insert
abbrev pub insert_in : Entry → List Entry → List Entry
insert_in e [] = e ∷ []
insert_in e (x ∷ xs) =
    if ltb e.key x.key then e ∷ x ∷ xs else if e.key == x.key then x ∷ xs else x ∷ insert_in e xs

-- AllocTcpClient with the next id; `fresh` is for the pool, and `created` says that there is a socket.
unfoldable pub alloc_tcp_client : ℕ → ℕ → ℕ → Bool → TcpService → Option Entry × TcpService
alloc_tcp_client next_id now fresh created v =
    let (address, pool) = alloc_block fresh v.pools.clients in
    let v' = record v { pools = record v.pools { clients = pool } } in
    let e : Entry = record {
      key = next_id;
      address = address;
      client = record (reset now) { logic_socket_id = next_id; socket_open = true };
      io = [];
      events = [];
    } in
    if v.marked_stop
    then (none, v)
    else if address == 0
    then (none, v')
    else if created
    then (some e, record v' { clients = insert_in e v.clients })
    else (none, record v { pools = record v.pools { clients = release_block address pool } })

-- mClientTimeoutSec * 1000 as an int, and then as an unsigned long long
unfoldable pub timeout_ms : ℕ → ℕ
timeout_ms timeout_sec =
    let product = timeout_sec * 1000 % 2 ^ 32 in
    if ltb product (2 ^ 31) then product else product + (2 ^ 64 - 2 ^ 32)

-- The test of checkStatus, with the interval in 64 bits
unfoldable pub is_timed_out : ℕ → ℕ → TcpClient → Bool
is_timed_out timeout_sec now c =
    ltb c.last_tick_time now && ltb (timeout_ms timeout_sec) (now - c.last_tick_time)

-- SetTimeout
unfoldable pub set_timeout : ℕ → Bool → Session → Session
set_timeout fresh taken s = (post_special op_timeout fresh taken s).1

-- The loop of checkStatus. `fresh` and `taken` are the answers for each client; `none` says that
-- SetTimeout has erased the node that the loop stands on.
unfoldable pub check_loop :
    ℕ → ℕ → (ℕ → ℕ) → (ℕ → Bool) → List Entry → Pools → Option (List Entry × Pools)
check_loop timeout_sec now fresh taken [] p = some ([], p)
check_loop timeout_sec now fresh taken (e ∷ es) p =
    let s =
      if is_timed_out timeout_sec now e.client
      then set_timeout (fresh e.key) (taken e.key) (view p e)
      else view p e in
    let skipped = check_loop timeout_sec now fresh taken es p in
    let freed =
      check_loop timeout_sec now fresh taken es
        (record s.pools { clients = release_block s.address s.pools.clients }) in
    let kept = check_loop timeout_sec now fresh taken es s.pools in
    if is_accepting e.client
    then elim skipped [ none ↦ none | some (l, p') ↦ some (e ∷ l, p') ]
    else if s.registered
    then (if s.client.marked_destroy && not (is_active s.client)
        then freed
        else elim kept [ none ↦ none | some (l, p') ↦ some (node e.key s ∷ l, p') ])
    else none

-- checkStatus
unfoldable pub check_status : ℕ → (ℕ → ℕ) → (ℕ → Bool) → TcpService → Option TcpService
check_status now fresh taken v =
    elim (check_loop v.client_timeout_sec now fresh taken v.clients v.pools) [
      | none ↦ none
      | some (l, p) ↦ some (record v { clients = l; pools = p })
    ]

abbrev pub count_in : List Entry → ℕ
count_in [] = 0
count_in (e ∷ es) = (if is_accepting e.client then 0 else 1) + count_in es

-- GetConnectionCount
unfoldable pub get_connection_count : TcpService → ℕ
get_connection_count v = count_in v.clients

abbrev pub cancel_in : List Entry → List Entry
cancel_in [] = []
cancel_in (e ∷ es) =
    (if is_accepting e.client then e else record e { client = cancel_io e.client }) ∷ cancel_in es

-- The part of StopNetService that cancels the clients.
unfoldable pub cancel_all : TcpService → TcpService
cancel_all v =
    if v.marked_stop then v else record v { clients = cancel_in v.clients; marked_stop = true }
