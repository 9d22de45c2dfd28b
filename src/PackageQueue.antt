-- ===== src/PackageQueue.antt =====
-- include/tool/PackageQueue.h and Baselib/PackageQueue.cpp: a queue of packets over a fixed pool, with
-- a semaphore that counts them. Each function is the part of its method that runs under m_poolLock;
-- Pop first waits for the semaphore, without the lock.
pub mod Handoff
pub mod Alloc
pub mod Restart
mod Tests
use iocp_netlib.Base.{
  ℕ, zero, suc, ◌+◌, ◌-◌, ◌^◌, ◌%◌, Bool, true, false, Option, none, some, List, [], ◌∷◌, ◌++◌,
  length, ltb, ◌==◌, if◌then◌else◌,
}
use iocp_netlib.Memory.{Memory}
use iocp_netlib.FixedPool.{FixedMemoryPool, alloc_raw, free_raw}
use iocp_netlib.FixedPool
use iocp_netlib.Semaphore.{Semaphore}
use iocp_netlib.Semaphore
use iocp_netlib.Packet.{attach, header_size}

pub data PopResult : Type 0 where
  pop_ok pop_timeout pop_empty : PopResult

pub record PackageQueue : Type 0 where
  pub queue : List ℕ
  pub sem : Semaphore
  pub pool : Option FixedMemoryPool
  pub mem : Memory

-- Init. `granted` is CreateSemaphore's success; the pool object itself comes from a nothrow new,
-- `none` if it has no memory or an assert of the constructor fails.
unfoldable pub init : Bool → Bool → (ℕ → ℕ) → ℕ → ℕ → PackageQueue → ℕ × PackageQueue
init granted has_memory malloc max_payload max_packets q = elim q.pool [
  | some _ ↦ (0, q)
  | none ↦
      if granted
      then (if has_memory
          then elim (FixedPool.create malloc ((header_size + max_payload) % 2 ^ 64) max_packets
              q.mem) [
                | none ↦ (1, record q { sem = Semaphore.create granted 0 })
                | some (p, mem) ↦
                    (0, record q { sem = Semaphore.create granted 0; pool = some p; mem = mem })
              ]
          else (1, record q { sem = Semaphore.create granted 0 }))
      else (1, record q { sem = Semaphore.create granted 0 })
]

-- Uninit frees the pool, and leaves the queue as it is.
unfoldable pub uninit : PackageQueue → PackageQueue
uninit q = record q { pool = none }

-- AllocWritePacket: the packet's address, or `none` for false.
unfoldable pub alloc_write_packet : PackageQueue → Option ℕ × PackageQueue
alloc_write_packet q = elim q.pool [
  | none ↦ (none, q)
  | some p ↦
      let (buf, p') = alloc_raw q.mem p in
      if buf == 0 then (none, record q { pool = some p' }) else (
        some buf,
        record q {
          pool = some p';
          mem = attach q.mem buf ((p'.elem_size + 2 ^ 64 - header_size) % 2 ^ 64);
        },
      )
]

-- Push of the packet at `buf`; 0 is a PacketWrite that was never attached.
unfoldable pub push : ℕ → PackageQueue → Bool × PackageQueue
push buf q =
    if buf == 0
    then (false, q)
    else (true, record q { queue = q.queue ++ (buf ∷ []); sem = Semaphore.post q.sem })

-- The part of Pop under the lock.
unfoldable pub take_front : PackageQueue → PopResult × Option ℕ × PackageQueue
take_front q = elim q.queue [
  | [] ↦ (pop_empty, none, q)
  | buf ∷ rest ↦ (pop_ok, some buf, record q { queue = rest })
]

-- Pop, when no other thread runs between the wait and the lock.
unfoldable pub pop : PackageQueue → PopResult × Option ℕ × PackageQueue
pop q =
    let (signalled, sem) = Semaphore.wait q.sem in
    if signalled
    then take_front (record q { sem = sem })
    else (pop_timeout, none, record q { sem = sem })

unfoldable pub get_queue_size : PackageQueue → ℕ
get_queue_size q = length q.queue

-- Release, which the destructor of a PacketRead calls.
unfoldable pub release : ℕ → PackageQueue → PackageQueue
release buf q = elim q.pool [
  | none ↦ q
  | some p ↦ let (p', mem) = free_raw q.mem p buf in record q { pool = some p'; mem = mem }
]
