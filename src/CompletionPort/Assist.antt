-- ===== src/CompletionPort/Assist.antt =====
-- Netlib/NetCoreIOCP.cpp: AssistThreadProc. Each round of its loop has the tick count that IsTimed reads
-- and the core that it finds.
use iocp_netlib.Base.{
  ℕ, suc, ◌+◌, ◌*◌, ◌≤◌, ◌≡◌, inl, inr, refl, sym, ap, ◌∙◌, Bool, true, false, Option, some, List,
  [], ◌∷◌, ◌++◌, map, arith, replicate, concat, Bool-cases, if◌then◌else◌, ◌==◌,
}
use iocp_netlib.Config.{NetServiceErr, success}
use iocp_netlib.Timer.{CTimer, is_timed, set_timer}
use iocp_netlib.Timer.Period.{fires, Ascending, last_of, fires-period}
use iocp_netlib.CompletionPort.{
  NetCore, InitAnswers, init_assist_thread, start_workers, start, finish, initialize, uninitialize,
}

-- The services that a round calls, in the order of their ids; 0 is null.
unfoldable pub services : List (ℕ × ℕ) → List ℕ
services [] = []
services ((id, service) ∷ rest) =
    let rest' = services rest in if service == 0 then rest' else (service ∷ rest')

-- The loop: the services whose TickUpdate it calls, in order.
unfoldable pub assist_loop : List (ℕ × NetCore) → CTimer → List ℕ
assist_loop [] timer = []
assist_loop ((now, c) ∷ rounds) timer =
    let (timed, timer') = is_timed now timer in
    let rest = assist_loop rounds timer' in
    if c.stop_assist_thread then [] else if timed then (services c.service_map ++ rest) else rest

-- AssistThreadProc, started at the tick count `now`.
unfoldable pub assist_thread_proc : ℕ → List (ℕ × NetCore) → List ℕ
assist_thread_proc now rounds = assist_loop rounds (set_timer now 1000)

-- Rounds that all find the core `c`.
abbrev pub rounds_of : NetCore → List ℕ → List (ℕ × NetCore)
rounds_of c ticks = map (λ now. (now, c)) ticks

updates :
    (c : NetCore) (ticks : List ℕ) (timer : CTimer)
    → c.stop_assist_thread ≡ false
    → assist_loop (rounds_of c ticks) timer
      ≡ concat (replicate (fires ticks timer) (services c.service_map))
unfolding assist_loop
updates c [] timer go = refl
updates c (now ∷ ticks) timer go =
    let timed : Bool = (is_timed now timer).0 in
    let rest : List ℕ = assist_loop (rounds_of c ticks) (is_timed now timer).1 in
    let later : ℕ = fires ticks (is_timed now timer).1 in
    let here : List ℕ = services c.service_map in
    let round = ap (λ b. if b then [] else if timed then (here ++ rest) else rest) go in
    let ih : rest ≡ concat (replicate later here) = updates c ticks (is_timed now timer).1 go in
    elim (Bool-cases timed) [
      | inl e ↦
          let one : (if timed then 1 else 0) + later ≡ suc later =
            ap (λ b. (if b then 1 else 0) + later) e ∙ omega arith in
          round
          ∙ ap (λ b. if b then (here ++ rest) else rest) e
          ∙ ap (λ l. here ++ l) ih
          ∙ ap (λ n. concat (replicate n here)) (sym one)
      | inr e ↦
          let none_now : (if timed then 1 else 0) + later ≡ later =
            ap (λ b. (if b then 1 else 0) + later) e ∙ omega arith in
          round
          ∙ ap (λ b. if b then (here ++ rest) else rest) e
          ∙ ih
          ∙ ap (λ n. concat (replicate n here)) (sym none_now)
    ]

-- The assist thread of a core that is not stopped, in rounds at any ascending tick counts below
-- 2 ^ 64: it calls TickUpdate of every service that is not null, in the order of their ids, once each
-- time that its timer fires, and the number of those times 1000 ms is at most the time since its start.
pub assist_thread_proc-updates :
    (c : NetCore) (now : ℕ) (ticks : List ℕ)
    → c.stop_assist_thread ≡ false
    → Ascending now ticks
    → (assist_thread_proc now (rounds_of c ticks)
        ≡ concat (replicate (fires ticks (set_timer now 1000)) (services c.service_map)))
      × (fires ticks (set_timer now 1000) * 1000 + now ≤ last_of now ticks)
unfolding assist_thread_proc
assist_thread_proc-updates c now ticks go up =
    (updates c ticks (set_timer now 1000) go, fires-period now 1000 ticks up)

stopped :
    (c : NetCore) (ticks : List ℕ) (timer : CTimer)
    → c.stop_assist_thread ≡ true
    → assist_loop (rounds_of c ticks) timer ≡ []
unfolding assist_loop
stopped c [] timer stop = refl
stopped c (now ∷ ticks) timer stop =
    let timed : Bool = (is_timed now timer).0 in
    let rest : List ℕ = assist_loop (rounds_of c ticks) (is_timed now timer).1 in
    ap (λ b. if b then [] else if timed then (services c.service_map ++ rest) else rest) stop

-- No step of Initialize clears mStopAssistThread.
start-stop :
    (a : InitAnswers) (n : ℕ) (c : NetCore)
    → (start a n c).1.stop_assist_thread ≡ c.stop_assist_thread
unfolding start start_workers init_assist_thread
start-stop a n c = ground arith

shut-stop :
    (after : List (Option Bool)) (c c' : NetCore)
    → uninitialize after c ≡ some c'
    → c'.stop_assist_thread ≡ true
unfolding uninitialize
shut-stop after c c' e = ground arith

finish-stop :
    (after : List (Option Bool)) (r r' : NetServiceErr × NetCore)
    → r.1.stop_assist_thread ≡ true
    → finish after r ≡ some r'
    → r'.1.stop_assist_thread ≡ true
unfolding finish uninitialize
finish-stop after r r' stop e = ground arith

initialize-stop :
    (a : InitAnswers) (n : ℕ) (after : List (Option Bool)) (c : NetCore)
    (r : NetServiceErr × NetCore)
    → c.stop_assist_thread ≡ true
    → initialize a n after c ≡ some r
    → r.1.stop_assist_thread ≡ true
unfolding initialize
initialize-stop a n after c r stop e =
    ground (arith, finish-stop after (start a n c) r, start-stop a n c)

-- A core that is initialised again after an UnInitialize never updates its services: mStopAssistThread
-- is still set, so that the loop of the new assist thread ends before its first round, at any tick
-- counts.
pub restart-no_updates :
    (a : InitAnswers) (n now : ℕ) (before after : List (Option Bool)) (c c' c'' : NetCore)
    (ticks : List ℕ)
    → uninitialize before c ≡ some c'
    → initialize a n after c' ≡ some (success, c'')
    → assist_thread_proc now (rounds_of c'' ticks) ≡ []
unfolding assist_thread_proc
restart-no_updates a n now before after c c' c'' ticks down up =
    stopped c'' ticks (set_timer now 1000)
      (initialize-stop a n after c' (success, c'') (shut-stop before c c' down) up)
