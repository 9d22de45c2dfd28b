-- ===== src/PackageQueue/Tests.antt =====
-- Baselib/PackageQueue.cpp: runs, and the theorems at concrete queues.
use iocp_netlib.Base.{ℕ, ◌<◌, ◌≡◌, refl, true, some, List, [], ◌∷◌, ◌++◌, arith}
use iocp_netlib.Memory.{Memory, store}
use iocp_netlib.FixedPool.{FixedMemoryPool, create}
use iocp_netlib.Semaphore
use iocp_netlib.PackageQueue.{
  PackageQueue, pop_ok, pop_timeout, init, uninit, push, take_front, pop, alloc_write_packet,
}
use iocp_netlib.PackageQueue.Handoff.{
  System, Reach, here, next, pushes, passes, started, Reach-handoff,
}
use iocp_netlib.PackageQueue.Restart.{pop_after_restart}

abbrev blank : Memory
blank = record { word = λ _. 0; byte = λ _. 0 }

abbrev two : FixedMemoryPool
two = record { pool = 1000; free_list = 1000; elem_size = 24; capacity = 2; free_count = 2 }

abbrev fresh : PackageQueue
fresh = record {
  queue = [];
  sem = some 0;
  pool = some two;
  mem = store (store blank 1000 1024) 1024 0;
}

pop-fresh : (pop fresh).0 ≡ pop_timeout
unfolding pop Semaphore.wait
pop-fresh = refl

alloc_fresh : (alloc_write_packet fresh).0 ≡ some 1000
unfolding alloc_write_packet iocp_netlib.FixedPool.alloc_raw
alloc_fresh = refl

-- A packet is pushed, and a consumer passes the wait.
abbrev waiting : System
waiting = record {
  q = record fresh { queue = 1000 ∷ []; sem = some 0 };
  passed = 1;
  pushed = 1000 ∷ [];
  taken = [];
}

waiting-Reach : Reach (started fresh) waiting
unfolding push Semaphore.post Semaphore.wait
waiting-Reach = next (next here (pushes 1000 (omega arith) (omega arith))) (passes refl)

Reach-handoff_example :
    (waiting.pushed ≡ waiting.taken ++ waiting.q.queue)
    × (0 < waiting.passed
        → (buf : ℕ) × (rest : List ℕ) × (waiting.q.queue ≡ buf ∷ rest)
          × (take_front waiting.q ≡ (pop_ok, some buf, record waiting.q { queue = rest })))
Reach-handoff_example = Reach-handoff refl refl waiting-Reach

abbrev stale : PackageQueue
stale = record fresh { queue = 1000 ∷ []; sem = some 1 }

made_again :
    create (λ _. 5000) 24 2 blank
    ≡ some (
      record { pool = 5000; free_list = 5000; elem_size = 24; capacity = 2; free_count = 2 },
      store (store blank 5000 5024) 5024 0,
    )
unfolding create
made_again = refl

abbrev stale_blank : PackageQueue
stale_blank = record stale { mem = blank }

pop_after_restart_example :
    pop (push 5000 (init true true (λ _. 5000) 8 2 (uninit stale_blank)).1).1 ≡ (
      pop_ok,
      some 1000,
      record {
        queue = 5000 ∷ [];
        sem = some 0;
        pool = some (record {
          pool = 5000;
          free_list = 5000;
          elem_size = 24;
          capacity = 2;
          free_count = 2;
        });
        mem = store (store blank 5000 5024) 5024 0;
      },
    )
pop_after_restart_example =
    pop_after_restart stale_blank (λ _. 5000) 8 2 1000 5000 [] _ _ refl (omega arith) made_again
