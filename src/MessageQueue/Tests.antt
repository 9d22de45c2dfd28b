-- ===== src/MessageQueue/Tests.antt =====
-- Baselib/MessageQueue.cpp: runs on concrete queues, and a sequence of calls.
use iocp_netlib.Base.{◌≡◌, refl, true, false, none, some, List, [], ◌∷◌, ◌==◌, if◌then◌else◌}
use iocp_netlib.Memory.{Memory, store}
use iocp_netlib.FixedPool.{FixedMemoryPool}
use iocp_netlib.FixedPool
use iocp_netlib.MessageQueue.{MessageQueue, mpop_ok, mpop_empty, front, init}
use iocp_netlib.MessageQueue.Calls.{
  Call, pushes, pops, clears, pushed, popped, cleared, fifo, fifo_run,
}

abbrev blank : Memory
blank = record { word = λ _. 0; byte = λ _. 0 }

-- Two blocks of 24 bytes from address 1000 on, both free.
abbrev two : FixedMemoryPool
two = record { pool = 1000; free_list = 1000; elem_size = 24; capacity = 2; free_count = 2 }

abbrev fresh : MessageQueue
fresh = record { queue = []; pool = some two; mem = store (store blank 1000 1024) 1024 0 }

init_two : init true (λ _. 1000) 5 2 (record { queue = []; pool = none; mem = blank }) ≡ (0, fresh)
unfolding init FixedPool.create
init_two = refl

-- One message of two bytes in the first block.
abbrev one : MessageQueue
one = record {
  queue = 1000 ∷ [];
  pool = some (record two { free_list = 1024; free_count = 1 });
  mem = record { word = λ a. if a == 1000 then 2 else 0; byte = λ a. a };
}

front-one : front one ≡ (1016, 2)
unfolding front
front-one = refl

-- Nine bytes do not fit, and the third message finds no free block.
abbrev calls : List Call
calls =
    pushes (1 ∷ 2 ∷ [])
    ∷ pushes (1 ∷ 2 ∷ 3 ∷ 4 ∷ 5 ∷ 6 ∷ 7 ∷ 8 ∷ 9 ∷ [])
    ∷ pushes (3 ∷ [])
    ∷ pushes (4 ∷ [])
    ∷ pops
    ∷ pushes (5 ∷ [])
    ∷ clears
    ∷ pops
    ∷ pushes (6 ∷ [])
    ∷ []

calls_answered : fifo_run 2 8 calls [] ≡ (
  pushed true
      ∷ pushed false
      ∷ pushed true
      ∷ pushed false
      ∷ popped mpop_ok (1 ∷ 2 ∷ [])
      ∷ pushed true
      ∷ cleared
      ∷ popped mpop_empty []
      ∷ pushed true
      ∷ [],
  (6 ∷ []) ∷ [],
)
unfolding fifo_run fifo
calls_answered = refl
