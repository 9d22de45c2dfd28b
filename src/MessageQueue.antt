-- ===== src/MessageQueue.antt =====
-- include/tool/MessageQueue.h and Baselib/MessageQueue.cpp: a queue of messages, each copied into a
-- block of a fixed pool behind a header of two words. Every method runs under m_poolLock.
pub mod Refine
pub mod Drain
pub mod Calls
mod Shape
mod Fifo
mod Tests
use iocp_netlib.Base.{
  ℕ, ◌+◌, ◌-◌, ◌^◌, ◌%◌, Bool, true, false, Option, none, some, List, [], ◌∷◌, ◌++◌, length, ltb,
  ◌==◌, if◌then◌else◌,
}
use iocp_netlib.Memory.{Memory, store, copy_bytes}
use iocp_netlib.FixedPool.{FixedMemoryPool, alloc_raw, free_raw}
use iocp_netlib.FixedPool

-- sizeof(MQPacketHeader)
abbrev pub header_size : ℕ
header_size = 16

pub data MPopResult : Type 0 where
  mpop_ok mpop_empty : MPopResult

pub record MessageQueue : Type 0 where
  pub queue : List ℕ
  pub pool : Option FixedMemoryPool
  pub mem : Memory

-- Init; `has_memory` is the nothrow new of the pool object, and an assert of the constructor that
-- fails ends here too.
unfoldable pub init : Bool → (ℕ → ℕ) → ℕ → ℕ → MessageQueue → ℕ × MessageQueue
init has_memory malloc max_payload max_packets q = elim q.pool [
  | some _ ↦ (0, q)
  | none ↦
      if has_memory
      then elim (FixedPool.create malloc ((header_size + max_payload) % 2 ^ 64) max_packets q.mem) [
        | none ↦ (1, q)
        | some (p, mem) ↦ (0, record q { pool = some p; mem = mem })
      ]
      else (1, q)
]

unfoldable pub uninit : MessageQueue → MessageQueue
uninit q = record q { pool = none }

-- Release
unfoldable pub release : ℕ → MessageQueue → MessageQueue
release buf q = elim q.pool [
  | none ↦ q
  | some p ↦ let (p', mem) = free_raw q.mem p buf in record q { pool = some p'; mem = mem }
]

-- The loop of Clear, over the packets of the queue.
unfoldable pub release_all : List ℕ → MessageQueue → MessageQueue
release_all [] q = record q { queue = [] }
release_all (buf ∷ rest) q = release_all rest (release buf (record q { queue = rest }))

unfoldable pub clear : MessageQueue → MessageQueue
clear q = release_all q.queue q

-- Front: the address of the message and its length, null and 0 if there is none.
unfoldable pub front : MessageQueue → ℕ × ℕ
front q = elim q.queue [ [] ↦ (0, 0) | buf ∷ _ ↦ (buf + header_size, q.mem.word buf) ]

unfoldable pub is_empty : MessageQueue → Bool
is_empty q = elim q.queue [ [] ↦ true | _ ∷ _ ↦ false ]

-- The header and payload that Push writes: the payload, then the position, then the capacity.
abbrev pub fill : Memory → ℕ → List ℕ → ℕ → Memory
fill mem buf src cap =
    store (store (copy_bytes mem (buf + header_size) src) buf (length src)) (buf + 8) cap

-- GetElementSize() - sizeof(MQPacketHeader) in size_t
abbrev pub room : FixedMemoryPool → ℕ
room p = (p.elem_size + 2 ^ 64 - header_size) % 2 ^ 64

-- Push; `none` is the null pool that it reads through before Init.
unfoldable pub push : List ℕ → MessageQueue → Option (Bool × MessageQueue)
push src q = elim q.pool [
  | none ↦ none
  | some p ↦
      if ltb (room p) (length src)
      then some (false, q)
      else (let (buf, p') = alloc_raw q.mem p in
          if buf == 0
          then some (false, record q { pool = some p' })
          else some (
            true,
            record {
              queue = q.queue ++ (buf ∷ []);
              pool = some p';
              mem = fill q.mem buf src (room p');
            },
          ))
]

unfoldable pub pop : MessageQueue → MPopResult × MessageQueue
pop q = elim q.queue [
  | [] ↦ (mpop_empty, q)
  | buf ∷ rest ↦ (mpop_ok, release buf (record q { queue = rest }))
]

unfoldable pub get_queue_size : MessageQueue → ℕ
get_queue_size q = length q.queue
