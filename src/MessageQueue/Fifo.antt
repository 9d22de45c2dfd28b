-- ===== src/MessageQueue/Fifo.antt =====
-- Baselib/MessageQueue.cpp: from Init on, the queue answers every call as a bounded queue of messages.
use iocp_netlib.Base.{ℕ, ◌+◌, ◌%◌, ◌^◌, ◌≡◌, none, some, List, []}
use iocp_netlib.Memory.{Memory}
use iocp_netlib.FixedPool.{FixedMemoryPool}
use iocp_netlib.Packet.{read_bytes}
use iocp_netlib.MessageQueue.{MessageQueue, header_size, front}
use iocp_netlib.MessageQueue.Refine.{IsQueue, messages}
use iocp_netlib.MessageQueue.Shape.{shape}
use iocp_netlib.MessageQueue.Calls.{Call, serve, run, fifo, fifo_run}

record IsFifo (cap max : ℕ) (q : MessageQueue) : Type 0 where
  pool : FixedMemoryPool
  free : List ℕ
  inv : IsQueue q pool free
  base : ℕ
  shaped : shape q ≡ some (base, max + header_size, cap)

module _ {cap max : ℕ} {q : MessageQueue} (ok : IsFifo cap max q) where
  -- What a call answers and leaves.
  abbrev Serves : Call → Type 0
  Serves c =
      (q' : MessageQueue) × (serve c q ≡ some ((fifo cap max c (messages q)).0, q'))
      × (messages q' ≡ (fifo cap max c (messages q)).1)
      × IsFifo cap max q'

  front_bytes : List ℕ
  front_bytes = read_bytes q.mem.byte (front q).0 (front q).1

module _ (cap max : ℕ) where
  Runs : List Call → MessageQueue → List (List ℕ) → Type 0
  Runs cs q ms =
      (q' : MessageQueue) × (run cs q ≡ some ((fifo_run cap max cs ms).0, q'))
      × (messages q' ≡ (fifo_run cap max cs ms).1)

module _ (malloc : ℕ → ℕ) (max_payload max_packets : ℕ) (mem : Memory) where
  new : MessageQueue
  new = record { queue = []; pool = none; mem = mem }

  block : ℕ
  block = (header_size + max_payload) % 2 ^ 64
