-- ===== src/CompletionPort/Startup.antt =====
-- Netlib/NetCoreIOCP.cpp: Initialize starts all workers or cleans up, and UnInitialize ends what it
-- started.
use mathlib.Core.List.{Mem}
use iocp_netlib.Base.{
  ℕ, ◌<◌, ◌≡◌, ◌≢◌, refl, sym, ap, ap₂, subst, ◌∙◌, ◌⊎◌, inl, inr, Bool, true, false, Option, none,
  some, List, [], ◌∷◌, ◌++◌, length, arith, not, ◌&&◌, ◌==◌, ==_iff, Bool-cases, if◌then◌else◌,
}
use iocp_netlib.Config.{NetServiceErr, success, system_error}
use iocp_netlib.CompletionPort.{
  NetCore, WorkerAnswers, InitAnswers, start_threads, init_assist_thread, start_workers, start,
  finish, initialize, uninitialize, all_signalled, shut,
}
use iocp_netlib.CompletionPort.Workers.{Packet, Workers, Reach, post_stops}
use iocp_netlib.CompletionPort.Stop.{IsPending, stops, post_stops-end, post_stops-orphan}
use iocp_netlib.CompletionPort.Threads.{IsStarted, IsStuck, all_started, stuck-orphan}

-- The workers of a core, with the packets that are queued.
abbrev pub workers_of : List Packet → NetCore → Workers
workers_of queue c = record {
  queue = queue;
  alive = c.threads;
  handles = c.exit_handles;
  calls = [];
}

-- A core whose workers all run.
abbrev pub IsRunning : NetCore → Type 0
IsRunning c =
    (c.init_once ≡ true)
    × (c.port ≡ true)
    × (length c.threads ≡ c.thread_count)
    × ((i : ℕ) → IsPending c.exit_handles i → Mem i c.threads)

-- A core without port and threads. The flag that stops the assist thread is set.
abbrev pub IsIdle : NetCore → Type 0
IsIdle c =
    (c.init_once ≡ false)
    × (c.port ≡ false)
    × (c.threads ≡ [])
    × (c.assist_thread ≡ false)
    × (c.stop_assist_thread ≡ true)

abbrev Started : ℕ → NetServiceErr × NetCore → Type 0
Started n (ret, c) = ((ret ≡ success) × IsRunning c × (c.thread_count ≡ n)) ⊎ (ret ≡ system_error)

-- The number of workers that Initialize starts.
abbrev pub wanted : InitAnswers → ℕ → ℕ
wanted a n = if n == 0 then a.processors else n

start_workers-Started :
    (workers : ℕ → WorkerAnswers) (n : ℕ) (c : NetCore)
    → c.threads ≡ []
    → Started n (start_workers workers n c)
unfolding start_workers
start_workers-Started workers n c empty =
    let (handles, threads) = start_threads workers n 0 in
    let same : c.threads ++ threads ≡ threads = ap (λ l. l ++ threads) empty in
    elim (Bool-cases (length (c.threads ++ threads) == n)) [
      | inr e ↦ rw (start_workers, e) (inr refl)
      | inl e ↦
          let full : length (c.threads ++ threads) ≡ n =
            (==_iff (length (c.threads ++ threads)) n).0 e in
          rw (start_workers, e)
            (inl (
              refl,
              (
                refl,
                refl,
                full,
                λ i pending.
                    subst (λ l. Mem i l) (sym same)
                      (subst (λ k. Mem k threads) (omega arith)
                        (all_started workers n 0 i (omega (arith, full, ap length same)) pending)),
              ),
              refl,
            ))
    ]

-- The core of a construct or of an UnInitialize.
module _ (a : InitAnswers) (n : ℕ) (c : NetCore) (empty : c.threads ≡ []) where
  assist-threads : (init_assist_thread a.assist c).1.threads ≡ []
  unfolding init_assist_thread
  assist-threads = ground (arith, empty)

  start-Started : Started (wanted a n) (start a n c)
  unfolding start
  start-Started = elim (Bool-cases (init_assist_thread a.assist c).0) [
    | inr e ↦ rw (start, e) (inr refl)
    | inl e ↦ elim (Bool-cases a.port) [
      | inr e' ↦ rw (start, e, e') (inr refl)
      | inl e' ↦
          rw (start, e, e')
            (start_workers-Started a.workers (wanted a n) (init_assist_thread a.assist c).1
              assist-threads)
    ]
  ]

  first_run :
      (after : List (Option Bool))
      → c.init_once ≡ false
      → initialize a n after c ≡ finish after (start a n c)
  unfolding initialize
  first_run after new = ap (λ b. if b then some (success, c) else finish after (start a n c)) new

finish_success :
    (after : List (Option Bool)) (r : NetServiceErr × NetCore)
    → r.0 ≡ success
    → finish after r ≡ some (success, r.1)
unfolding finish
finish_success after (ret, c) e = rw e refl

finish_error :
    (after : List (Option Bool)) (r : NetServiceErr × NetCore) (c' : NetCore)
    → r.0 ≡ system_error
    → uninitialize after r.1 ≡ some c'
    → finish after r ≡ some (system_error, c')
unfolding finish
finish_error after (ret, c) c' e run = rw (finish, e, run) (ap (λ r. some (r, c')) e)

finish_hung :
    (after : List (Option Bool)) (r : NetServiceErr × NetCore)
    → r.0 ≡ system_error
    → uninitialize after r.1 ≡ none
    → finish after r ≡ none
unfolding finish
finish_hung after (ret, c) e run = rw (finish, e, run) refl

uninitialize-cases :
    (after : List (Option Bool)) (c : NetCore)
    → ((c' : NetCore) × (uninitialize after c ≡ some c') × IsIdle c')
      ⊎ ((uninitialize after c ≡ none) × (c.port ≡ true) × (all_signalled after ≡ false))
unfolding uninitialize
uninitialize-cases after c = elim (Bool-cases c.port) [
  | inr e ↦ inl (shut c, rw (uninitialize, e) refl, (refl, refl, refl, refl, refl))
  | inl e ↦ elim (Bool-cases (all_signalled after)) [
    | inl e' ↦ inl (shut c, rw (uninitialize, e, e') refl, (refl, refl, refl, refl, refl))
    | inr e' ↦ inr (rw (uninitialize, e, e') refl, e, e')
  ]
]

hung_uninitialize :
    (after : List (Option Bool)) (c : NetCore)
    → c.port ≡ true
    → all_signalled after ≡ false
    → uninitialize after c ≡ none
unfolding uninitialize
hung_uninitialize after c port unsignalled =
    ap₂ (λ p q. if p && not q then none else some (shut c)) port unsignalled

-- Initialize on a core without threads: it is already initialised, and nothing is done; or it returns 0
-- with all workers running, as many as asked for, or as there are processors if 0 are asked for, each
-- event that is not signalled with its worker; or it returns NSE_SYSTEM_ERROR with the port and the
-- threads gone and the assist thread's stop flag set; or it does not return, and then some exit event
-- stays without a signal.
pub initialize-cases :
    (a : InitAnswers) (n : ℕ) (after : List (Option Bool)) (c : NetCore)
    → c.threads ≡ []
    → ((c.init_once ≡ true) × (initialize a n after c ≡ some (success, c)))
      ⊎ ((c' : NetCore) × (initialize a n after c ≡ some (success, c'))
          × IsRunning c'
          × (c'.thread_count ≡ wanted a n))
      ⊎ ((c' : NetCore) × (initialize a n after c ≡ some (system_error, c')) × IsIdle c')
      ⊎ ((initialize a n after c ≡ none) × (all_signalled after ≡ false))
unfolding initialize
initialize-cases a n after c empty = elim (Bool-cases c.init_once) [
  | inl old ↦ inl (old, rw (initialize, old) refl)
  | inr new ↦
      let run = first_run a n c empty after new in
      elim (start-Started a n c empty) [
        | inl (ok, running, as_many) ↦
            inr
              (inl ((start a n c).1, run ∙ finish_success after (start a n c) ok, running, as_many))
        | inr err ↦ elim (uninitialize-cases after (start a n c).1) [
          | inl (c', ended, idle) ↦
              inr (inr (inl (c', run ∙ finish_error after (start a n c) c' err ended, idle)))
          | inr (hung, _, unsignalled) ↦
              inr (inr (inr (run ∙ finish_hung after (start a n c) err hung, unsignalled)))
        ]
      ]
]

not_both : {b : Bool} → b ≡ true → b ≡ false → ⊥
not_both e e' = absurd cc

assist_ok :
    (started : Bool) (c : NetCore) → started ≡ true → (init_assist_thread started c).0 ≡ true
unfolding init_assist_thread
assist_ok started c e = ground arith

-- A core whose workers all run, and UnInitialize on it, with no stop packet queued before: while a
-- worker runs, a packet is queued for it; and when the workers have served the packets and none
-- runs, every wait of UnInitialize ends, and the core is not initialised and has neither port nor
-- threads, with the flag set that stops the assist thread.
pub uninitialize-ends :
    (c : NetCore) (queue : List Packet) {t : Workers}
    → IsRunning c
    → stops queue ≡ 0
    → Reach (post_stops (workers_of queue c)) t
    → (t.alive ≢ [] → (p : Packet) × (rest : List Packet) × (t.queue ≡ p ∷ rest))
      × (t.alive ≡ [] → (c' : NetCore) × (uninitialize t.handles c ≡ some c') × IsIdle c')
uninitialize-ends c queue {t} (_, _, _, owned) none_yet r =
    let (goes_on, _, ends) =
      post_stops-end (workers_of queue c) none_yet (λ i orphan. orphan.1 (owned i orphan.0)) r in
    (
      goes_on,
      λ done. elim (uninitialize-cases t.handles c) [
        | inl ended ↦ ended
        | inr (_, _, unsignalled) ↦ absurd (not_both (ends done) unsignalled)
      ],
    )

start_workers-made :
    (workers : ℕ → WorkerAnswers) (n : ℕ) (c : NetCore)
    → c.threads ≡ []
    → ((start_workers workers n c).1.exit_handles ≡ (start_threads workers n 0).0)
      × ((start_workers workers n c).1.threads ≡ (start_threads workers n 0).1)
      × ((start_workers workers n c).1.port ≡ true)
unfolding start_workers
start_workers-made workers n c empty =
    let same : c.threads ++ (start_threads workers n 0).1 ≡ (start_threads workers n 0).1 =
      ap (λ l. l ++ (start_threads workers n 0).1) empty in
    elim (Bool-cases (length (c.threads ++ (start_threads workers n 0).1) == n)) [
      | inr e ↦ rw (start_workers, e) (refl, same, refl)
      | inl e ↦ rw (start_workers, e) (refl, same, refl)
    ]

-- Initialize as far as the workers.
start-start_workers :
    (a : InitAnswers) (n : ℕ) (c : NetCore)
    → 0 < n
    → a.assist ≡ true
    → a.port ≡ true
    → start a n c ≡ start_workers a.workers n (init_assist_thread a.assist c).1
unfolding start
start-start_workers a n c pos assist port =
    let ok : (init_assist_thread a.assist c).0 ≡ true = assist_ok a.assist c assist in
    let same : (if n == 0 then a.processors else n) ≡ n = ground arith in
    rw (start, ok, port, same) refl

-- Initialize for a number of workers that is not 0, on a core that is not initialised and has no threads,
-- with no stop packet queued, when the assist thread and the port come up, each worker before some
-- one starts, and the thread of that one does not start after its exit event and its object were
-- made: the code is NSE_SYSTEM_ERROR, but whatever the workers do with the packets, not all exit
-- events are signalled, so that the wait of UnInitialize does not end and Initialize does not return.
pub initialize-hangs :
    (a : InitAnswers) (n k : ℕ) (c : NetCore) (queue : List Packet) {t : Workers}
    → c.init_once ≡ false
    → c.threads ≡ []
    → a.assist ≡ true
    → a.port ≡ true
    → k < n
    → ((j : ℕ) → j < k → IsStarted (a.workers j))
    → IsStuck (a.workers k)
    → stops queue ≡ 0
    → Reach (post_stops (workers_of queue (start a n c).1)) t
    → ((start a n c).0 ≡ system_error)
      × (all_signalled t.handles ≡ false)
      × (initialize a n t.handles c ≡ none)
initialize-hangs a n k c queue {t} new empty assist port lt ok stuck none_yet r =
    let c₁ : NetCore = (start a n c).1 in
    let (handles, threads, has_port) =
      start_workers-made a.workers n (init_assist_thread a.assist c).1
        (assist-threads a n c empty) in
    let run = start-start_workers a n c (omega arith) assist port in
    let (pending, gone) =
      stuck-orphan a.workers k n 0 lt (λ j _ lt'. ok j (omega arith))
        (subst (λ i. IsStuck (a.workers i)) (omega arith) stuck) in
    let pending' : IsPending c₁.exit_handles k =
      subst (λ hs. IsPending hs k) (sym handles ∙ ap (λ r. r.1.exit_handles) (sym run)) pending in
    let gone' : ¬ Mem k c₁.threads = λ m. gone (
      subst (λ i. Mem i (start_threads a.workers n 0).1) (omega arith)
        (subst (λ l. Mem k l) (ap (λ r. r.1.threads) run ∙ threads) m)) in
    let unsignalled : all_signalled t.handles ≡ false =
      post_stops-orphan (workers_of queue c₁) k none_yet (pending', gone') r in
    let hung : uninitialize t.handles c₁ ≡ none =
      hung_uninitialize t.handles c₁ (ap (λ r. r.1.port) run ∙ has_port) unsignalled in
    elim (start-Started a n c empty) [
      | inl (_, running, _) ↦ absurd (gone' (running.3 k pending'))
      | inr err ↦ (
        err,
        unsignalled,
        first_run a n c empty t.handles new ∙ finish_hung t.handles (start a n c) err hung,
      )
    ]
