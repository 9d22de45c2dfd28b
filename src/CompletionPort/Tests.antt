-- ===== src/CompletionPort/Tests.antt =====
-- Netlib/NetCoreIOCP.cpp: a core with two workers that is started, used and stopped, and one whose
-- second worker does not start.
use mathlib.Core.List.{Mem, mem-cons_self, mem-cons_of_mem}
use mathlib.Core.List.Perm
use iocp_netlib.Base.{
  ℕ, zero, suc, ◌+◌, ◌*◌, ◌^◌, ◌≤◌, ◌<◌, ◌≡◌, ◌≢◌, refl, ◌⊎◌, true, false, none, some, List, [],
  ◌∷◌, arith, length, replicate, concat,
}
use iocp_netlib.Config.{success, system_error}
use iocp_netlib.Timer.{is_timed, set_timer}
use iocp_netlib.Timer.Period.{fires}
use iocp_netlib.CompletionPort.{
  NetCore, WorkerAnswers, InitAnswers, construct, add_service, remove_service, start_threads,
  init_assist_thread, start_workers, start, finish, initialize, uninitialize, all_signalled,
  get_next_logic_socket_id, get_next_service_id,
}
use iocp_netlib.CompletionPort.Workers.{
  Packet, completes, Workers, work_proc, set_event, serve, takes, Reach, here, next, post_stops,
  stop_packet,
}
use iocp_netlib.CompletionPort.Stop.{IsPending, stops, taken_in, posted_in, post_stops-end}
use iocp_netlib.CompletionPort.Threads.{IsStarted}
use iocp_netlib.CompletionPort.Startup.{
  workers_of, IsRunning, IsIdle, initialize-cases, uninitialize-ends, initialize-hangs,
}
use iocp_netlib.CompletionPort.Ids.{nth_id, nth_id-distinct}
use iocp_netlib.CompletionPort.Assist.{
  services, assist_loop, assist_thread_proc, rounds_of, assist_thread_proc-updates,
  restart-no_updates,
}

abbrev all_well : ℕ → WorkerAnswers
all_well i = record { event = true; allocated = true; started = true }

-- The second thread does not start.
abbrev one_well : ℕ → WorkerAnswers
one_well zero = record { event = true; allocated = true; started = true }
one_well (suc i) = record { event = true; allocated = true; started = false }

abbrev good : InitAnswers
good = record { assist = true; port = true; processors = 2; workers = all_well }

abbrev bad : InitAnswers
bad = record { assist = true; port = true; processors = 2; workers = one_well }

abbrev running : NetCore
running = record {
  port = true;
  thread_count = 2;
  init_once = true;
  threads = 0 ∷ 1 ∷ [];
  exit_handles = some false ∷ some false ∷ [];
  next_logic_socket_id = 0;
  next_service_id = 0;
  service_map = [];
  assist_thread = true;
  stop_assist_thread = false;
}

initialize-construct : initialize good 0 [] construct ≡ some (success, running)
unfolding initialize finish start start_workers start_threads init_assist_thread construct
initialize-construct = refl

-- With no assist thread.
initialize_no_assist :
    initialize (record good { assist = false }) 0 [] construct
    ≡ some (system_error, record construct { stop_assist_thread = true })
unfolding initialize finish start start_workers start_threads init_assist_thread construct
    uninitialize all_signalled
initialize_no_assist = refl

-- A service that is registered twice is replaced.
services-add_service :
    services
      (remove_service 3 (
        add_service 3 30
          (add_service 1 11 (add_service 2 20 (add_service 1 10 construct))))).service_map
    ≡ 11 ∷ 20 ∷ []
unfolding services remove_service add_service construct
services-add_service = refl

second_service_id : (get_next_service_id (get_next_service_id construct).1).0 ≡ 2
unfolding get_next_service_id construct
second_service_id = refl

initialize-cases_example :
    ((construct.init_once ≡ true) × (initialize good 0 [] construct ≡ some (success, construct)))
    ⊎ ((c' : NetCore) × (initialize good 0 [] construct ≡ some (success, c'))
        × IsRunning c'
        × (c'.thread_count ≡ 2))
    ⊎ ((c' : NetCore) × (initialize good 0 [] construct ≡ some (system_error, c')) × IsIdle c')
    ⊎ ((initialize good 0 [] construct ≡ none) × (all_signalled [] ≡ false))
unfolding construct
initialize-cases_example = initialize-cases good 0 [] construct refl

-- A request in the queue, which the worker 1 serves before both take a stop packet.
abbrev request : Packet
request = record { result = true; key = some 9; overlapped = some 7; bytes = 64 }

abbrev ended : Workers
ended = record {
  queue = [];
  alive = [];
  handles = some true ∷ some true ∷ [];
  calls = completes 9 true 7 64 ∷ [];
}

ended-Reach : Reach (post_stops (workers_of (request ∷ []) running)) ended
unfolding post_stops work_proc serve set_event
ended-Reach =
    next
      (next (next here (takes 1 (0 ∷ []) request _ refl (Perm.swap 1 0 [])))
        (takes 0 (1 ∷ []) stop_packet _ refl (Perm.refl _)))
      (takes 1 [] stop_packet _ refl (Perm.refl _))

running-owned : (i : ℕ) → IsPending running.exit_handles i → Mem i running.threads
running-owned zero h = mem-cons_self
running-owned (suc zero) h = mem-cons_of_mem 0 mem-cons_self
running-owned (suc (suc i)) h = absurd cc

running-IsRunning : IsRunning running
running-IsRunning = (refl, refl, refl, running-owned)

no_stop_yet : stops (request ∷ []) ≡ 0
unfolding work_proc
no_stop_yet = refl

post_stops-end_test :
    (ended.alive ≢ [] → (p : Packet) × (queue : List Packet) × (ended.queue ≡ p ∷ queue))
    × (taken_in ended-Reach + 0
        ≡ posted_in ended-Reach + length (post_stops (workers_of (request ∷ []) running)).queue)
    × (ended.alive ≡ [] → all_signalled ended.handles ≡ true)
post_stops-end_test =
    post_stops-end (workers_of (request ∷ []) running) no_stop_yet
      (λ i orphan. orphan.1 (running-owned i orphan.0)) ended-Reach

uninitialize-ends_example :
    (ended.alive ≢ [] → (p : Packet) × (rest : List Packet) × (ended.queue ≡ p ∷ rest))
    × (ended.alive ≡ []
        → (c' : NetCore) × (uninitialize ended.handles running ≡ some c') × IsIdle c')
uninitialize-ends_example =
    uninitialize-ends running (request ∷ []) running-IsRunning no_stop_yet ended-Reach

-- The first worker has taken its stop packet.
abbrev left_over : Workers
left_over = record { queue = []; alive = []; handles = some true ∷ some false ∷ []; calls = [] }

left_over-Reach : Reach (post_stops (workers_of [] (start bad 2 construct).1)) left_over
unfolding post_stops work_proc serve set_event start start_workers start_threads init_assist_thread
    construct
left_over-Reach = next here (takes 0 [] stop_packet _ refl (Perm.refl _))

one_well-IsStarted : (j : ℕ) → j < 1 → IsStarted (one_well j)
one_well-IsStarted zero lt = (refl, refl, refl)
one_well-IsStarted (suc j) lt = absurd (omega arith)

initialize-hangs_example :
    ((start bad 2 construct).0 ≡ system_error)
    × (all_signalled left_over.handles ≡ false)
    × (initialize bad 2 left_over.handles construct ≡ none)
unfolding construct
initialize-hangs_example =
    initialize-hangs bad 2 1 construct [] refl refl refl refl (omega arith) one_well-IsStarted
      (refl, refl, refl) refl left_over-Reach

nth_id-distinct_example :
    (0 < nth_id 0 running) × (nth_id 0 running < 2 ^ 32) × (nth_id 0 running ≢ nth_id 5 running)
nth_id-distinct_example = nth_id-distinct running 0 5 (omega arith) (omega arith) (omega arith)

-- The counter skips 0.
nth_id_wraps : nth_id 0 (record running { next_logic_socket_id = 0xFFFFFFFF }) ≡ 1
unfolding get_next_logic_socket_id
nth_id_wraps = refl

abbrev with_service : NetCore
with_service = record running { service_map = (1, 10) ∷ (2, 0) ∷ (3, 30) ∷ [] }

two_seconds :
    assist_thread_proc 0 (rounds_of with_service (500 ∷ 1000 ∷ 2100 ∷ [])) ≡ 10 ∷ 30 ∷ 10 ∷ 30 ∷ []
unfolding assist_thread_proc assist_loop services is_timed set_timer
two_seconds = refl

assist_thread_proc-updates_test :
    (assist_thread_proc 0 (rounds_of with_service (500 ∷ 1000 ∷ []))
      ≡ concat (
          replicate
            (fires (500 ∷ 1000 ∷ []) (set_timer 0 1000))
            (services with_service.service_map)))
    × (fires (500 ∷ 1000 ∷ []) (set_timer 0 1000) * 1000 + 0 ≤ 1000)
assist_thread_proc-updates_test =
    assist_thread_proc-updates with_service 0 (500 ∷ 1000 ∷ []) refl
      (omega arith, (omega arith, omega arith))

abbrev stopped_core : NetCore
stopped_core = record running {
  port = false;
  init_once = false;
  threads = [];
  exit_handles = none ∷ none ∷ [];
  assist_thread = false;
  stop_assist_thread = true;
}

down : uninitialize ended.handles running ≡ some stopped_core
unfolding uninitialize all_signalled
down = refl

up :
    initialize good 2 [] stopped_core ≡ some (success, record running { stop_assist_thread = true })
unfolding initialize finish start start_workers start_threads init_assist_thread
up = refl

restart-no_updates_test :
    assist_thread_proc 0
      (rounds_of (record running { stop_assist_thread = true }) (1000 ∷ 2000 ∷ []))
    ≡ []
restart-no_updates_test =
    restart-no_updates good 2 0 ended.handles [] running stopped_core
      (record running { stop_assist_thread = true }) (1000 ∷ 2000 ∷ []) down up
