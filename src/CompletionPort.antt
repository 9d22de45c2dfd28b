-- ===== src/CompletionPort.antt =====
-- Netlib/NetCoreIOCP.cpp: the completion port with its workers, the assist thread, the services and the
-- ids. An exit event is `none` for NULL, or whether it is signalled.
pub mod Workers
pub mod Threads
pub mod Startup
pub mod Stop
pub mod Ids
pub mod Assist
mod Tests
use iocp_netlib.Base.{
  ℕ, zero, suc, ◌+◌, ◌%◌, ◌^◌, ◌==◌, Bool, true, false, Option, none, some, List, [], ◌∷◌, ◌++◌,
  ltb, length, replicate, if◌then◌else◌, ◌&&◌, not,
}
use iocp_netlib.Config.{NetServiceErr, is_success}

-- The fields of the class; `threads` are the indices of the running workers.
pub record NetCore : Type 0 where
  pub port : Bool
  pub thread_count : ℕ
  pub init_once : Bool
  pub threads : List ℕ
  pub exit_handles : List (Option Bool)
  pub next_logic_socket_id : ℕ
  pub next_service_id : ℕ
  pub service_map : List (ℕ × ℕ)
  pub assist_thread : Bool
  pub stop_assist_thread : Bool

unfoldable pub construct : NetCore
construct = record {
  port = false;
  thread_count = 0;
  init_once = false;
  threads = [];
  exit_handles = [];
  next_logic_socket_id = 0;
  next_service_id = 0;
  service_map = [];
  assist_thread = false;
  stop_assist_thread = false;
}

unfoldable pub get_next_service_id : NetCore → ℕ × NetCore
get_next_service_id c =
    let next = (c.next_service_id + 1) % 2 ^ 32 in (next, record c { next_service_id = next })

unfoldable pub get_next_logic_socket_id : NetCore → ℕ × NetCore
get_next_logic_socket_id c =
    let ret = (c.next_logic_socket_id + 1) % 2 ^ 32 in
    let again = (ret + 1) % 2 ^ 32 in
    if ret == 0
    then (again, record c { next_logic_socket_id = again })
    else (ret, record c { next_logic_socket_id = ret })

unfoldable pub erase : ℕ → List (ℕ × ℕ) → List (ℕ × ℕ)
erase id [] = []
erase id ((k, service) ∷ rest) =
    let rest' = erase id rest in if k == id then rest' else ((k, service) ∷ rest')

unfoldable pub insert : ℕ → ℕ → List (ℕ × ℕ) → List (ℕ × ℕ)
insert id service [] = (id, service) ∷ []
insert id service ((k, old) ∷ rest) =
    let rest' = insert id service rest in
    if ltb id k
    then ((id, service) ∷ (k, old) ∷ rest)
    else if k == id
    then ((id, service) ∷ rest)
    else ((k, old) ∷ rest')

-- mServiceMap[serviceID] = service, in a map that is in the order of its keys
unfoldable pub add_service : ℕ → ℕ → NetCore → NetCore
unfolding insert
add_service id service c = record c { service_map = insert id service c.service_map }

unfoldable pub remove_service : ℕ → NetCore → NetCore
unfolding erase
remove_service id c = record c { service_map = erase id c.service_map }

-- AttachSocketToIOCP, with whether CreateIoCompletionPort gives a handle; `true` is 0, `false` is -1.
unfoldable pub attach_socket_to_iocp : Bool → Bool
attach_socket_to_iocp granted = granted

-- What the system answers for one worker: CreateEvent, operator new, Thread::Start.
pub record WorkerAnswers : Type 0 where
  pub event : Bool
  pub allocated : Bool
  pub started : Bool

abbrev event_of : Bool → Option Bool
event_of true = some false
event_of false = none

-- The loop that starts the workers, for `left` indices from `i` on: the events made, NULL where the loop
-- has not come, and the workers started.
unfoldable pub start_threads : (ℕ → WorkerAnswers) → ℕ → ℕ → List (Option Bool) × List ℕ
start_threads workers zero i = ([], [])
start_threads workers (suc left) i =
    let (handles, threads) = start_threads workers left (i + 1) in
    let event = event_of (workers i).event in
    if not (workers i).allocated
    then (event ∷ handles, threads)
    else if (workers i).event && (workers i).started
    then (event ∷ handles, i ∷ threads)
    else (event ∷ replicate left none, [])

-- What the system answers to Initialize.
pub record InitAnswers : Type 0 where
  pub assist : Bool
  pub port : Bool
  pub processors : ℕ
  pub workers : ℕ → WorkerAnswers

-- InitAssistThread: whether it returns 0; otherwise NSE_SYSTEM_ERROR.
unfoldable pub init_assist_thread : Bool → NetCore → Bool × NetCore
init_assist_thread started c =
    if c.assist_thread then (true, c) else (started, record c { assist_thread = started })

-- Whether every wait for an exit event ends, given the events when the last worker has gone.
unfoldable pub all_signalled : List (Option Bool) → Bool
all_signalled [] = true
all_signalled (none ∷ rest) = all_signalled rest
all_signalled (some signalled ∷ rest) = signalled && all_signalled rest

-- What UnInitialize leaves, with the events closed if there was a port.
abbrev pub shut : NetCore → NetCore
shut c = record c {
  stop_assist_thread = true;
  assist_thread = false;
  port = false;
  exit_handles = if c.port then replicate (length c.exit_handles) none else c.exit_handles;
  threads = [];
  init_once = false;
}

-- UnInitialize, with the events as the workers leave them; `none` when a wait goes on for ever.
unfoldable pub uninitialize : List (Option Bool) → NetCore → Option NetCore
uninitialize after c = if c.port && not (all_signalled after) then none else some (shut c)

-- The core with the port, and with what the loop over the workers has made.
abbrev pub with_workers : ℕ → List (Option Bool) × List ℕ → NetCore → NetCore
with_workers n (handles, threads) c = record c {
  port = true;
  thread_count = n;
  exit_handles = handles;
  threads = c.threads ++ threads;
}

-- The part of Initialize behind the port: `n` workers, and the test of their number.
unfoldable pub start_workers : (ℕ → WorkerAnswers) → ℕ → NetCore → NetServiceErr × NetCore
start_workers workers n c =
    let c' = with_workers n (start_threads workers n 0) c in
    if length c'.threads == n
    then (NetServiceErr.success, record c' { init_once = true })
    else (NetServiceErr.system_error, c')

-- The body of Initialize up to the test of `ret`.
unfoldable pub start : InitAnswers → ℕ → NetCore → NetServiceErr × NetCore
start a thread_count c =
    let (ok, c') = init_assist_thread a.assist c in
    if not ok
    then (NetServiceErr.system_error, c')
    else if not a.port
    then (NetServiceErr.system_error, record c' { port = false })
    else start_workers a.workers (if thread_count == 0 then a.processors else thread_count) c'

-- The end of Initialize: UnInitialize if it failed, with the events as the workers leave them.
unfoldable pub finish :
    List (Option Bool) → NetServiceErr × NetCore → Option (NetServiceErr × NetCore)
finish after (ret, c) =
    if is_success ret
    then some (ret, c)
    else (elim (uninitialize after c) [ none ↦ none | some c' ↦ some (ret, c') ])

unfoldable pub initialize :
    InitAnswers → ℕ → List (Option Bool) → NetCore → Option (NetServiceErr × NetCore)
initialize a thread_count after c =
    let result = finish after (start a thread_count c) in
    if c.init_once then some (NetServiceErr.success, c) else result
