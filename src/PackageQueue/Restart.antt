-- ===== src/PackageQueue/Restart.antt =====
-- Baselib/PackageQueue.cpp, Uninit and Init: the queue outlives its pool.
use iocp_netlib.Base.{ℕ, ◌+◌, ◌%◌, ◌^◌, ◌≡◌, ◌≢◌, true, some, List, [], ◌∷◌, ◌++◌, arith}
use iocp_netlib.Memory.{Memory}
use iocp_netlib.FixedPool.{FixedMemoryPool}
use iocp_netlib.FixedPool
use iocp_netlib.Semaphore
use iocp_netlib.Packet.{header_size}
use iocp_netlib.PackageQueue.{PackageQueue, pop_ok, init, uninit, push, take_front, pop}

-- Uninit with a packet `old` in the queue, Init again with success, and a Push of a packet `new`: the
-- next Pop hands out `old`, which was queued before, and the new packet stays behind.
pub pop_after_restart :
    (q : PackageQueue) (malloc : ℕ → ℕ) (max_payload max_packets old new : ℕ) (rest : List ℕ)
    (p : FixedMemoryPool) (mem : Memory)
    → q.queue ≡ old ∷ rest
    → new ≢ 0
    → FixedPool.create malloc ((header_size + max_payload) % 2 ^ 64) max_packets q.mem
      ≡ some (p, mem)
    → let again = (init true true malloc max_payload max_packets (uninit q)).1 in
      pop (push new again).1 ≡ (
        pop_ok,
        some old,
        record { queue = rest ++ (new ∷ []); sem = some 0; pool = some p; mem = mem },
      )
unfolding pop push take_front init uninit Semaphore.wait Semaphore.post Semaphore.create
pop_after_restart q malloc max_payload max_packets old new rest p mem e ne made =
    ground (arith, e, made)
