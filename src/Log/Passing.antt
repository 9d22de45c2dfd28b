-- ===== src/Log/Passing.antt =====
-- Baselib/LogManager.cpp, WriteV and ThreadProc: what the thread gets of what was written.
use iocp_netlib.Base.{
  ℕ, ◌+◌, ◌-◌, ◌^◌, ◌≤◌, ◌<◌, ◌≡◌, ◌≢◌, refl, sym, ap, ◌∙◌, Bool, true, false, some, List, [], ◌∷◌,
  ◌++◌, arith, length, take, Text, lt→ltb, le→ltb, length-take, if◌then◌else◌,
}
use iocp_netlib.Memory.{Memory}
use iocp_netlib.FixedPool.{FixedMemoryPool}
use iocp_netlib.Semaphore
use iocp_netlib.Packet.{header_size, write, payload, get_data_length, get_buffer, read_bytes}
use iocp_netlib.Packet.Laws.{length-read_bytes}
use iocp_netlib.PackageQueue.{PackageQueue, alloc_write_packet, push, pop, take_front}
use iocp_netlib.PackageQueue.Alloc.{nonzero, attached, write_first, taken, alloc_write_packet-run}
use iocp_netlib.Log.{
  LogCell, cell_size, name_size, content_size, cell_bytes, read_cell, make_cell, queue_cell,
  write_v, packet_cell, thread_round,
}
use iocp_netlib.Log.Cells.{NoZero, NoZero-take, IsCell, length-cell_bytes, read_cell-cell_bytes}

-- The memory with the cell in the first free block
filled : LogCell → Memory → FixedMemoryPool → Memory
filled c mem p = (write (attached mem p) p.free_list (cell_bytes c)).1

queue_cell-run :
    (c : LogCell) (q : PackageQueue) (p : FixedMemoryPool)
    → q.pool ≡ some p
    → p.free_list ≢ 0
    → queue_cell c (alloc_write_packet q) ≡ (
      true,
      record {
        queue = q.queue ++ (p.free_list ∷ []);
        sem = Semaphore.post q.sem;
        pool = some (taken q p);
        mem = filled c q.mem p;
      },
    )
unfolding queue_cell push filled
queue_cell-run c q p has free =
    ap (queue_cell c) (alloc_write_packet-run q p has free)
    ∙ ap (λ (b : Bool). if b then (false, before) else (true, after)) (nonzero p.free_list free)
  where
    before : PackageQueue
    before = record {
      queue = q.queue;
      sem = q.sem;
      pool = some (taken q p);
      mem = filled c q.mem p;
    }

    after : PackageQueue
    after = record before { queue = q.queue ++ (p.free_list ∷ []); sem = Semaphore.post q.sem }

packet_cell_lem :
    (size buf : ℕ) (mem : Memory) (bytes : List ℕ)
    → buf ≢ 0
    → payload mem buf ≡ bytes
    → length bytes ≡ size
    → packet_cell size buf mem ≡ some (read_cell bytes)
unfolding packet_cell get_buffer get_data_length
packet_cell_lem size buf mem bytes free held long =
    let n : mem.word buf ≡ size =
      sym (length-read_bytes mem.byte (buf + header_size) (mem.word buf)) ∙ ap length held ∙ long in
    let whole : read_bytes mem.byte (buf + header_size) size ≡ bytes =
      ap (read_bytes mem.byte (buf + header_size)) (sym n) ∙ held in
    rw (nonzero buf free, n, whole, le→ltb size size (omega arith)) refl

thread_round-packet_cell :
    (q : PackageQueue) (buf : ℕ)
    → q.queue ≡ buf ∷ []
    → q.sem ≡ some 1
    → (thread_round q).0 ≡ packet_cell cell_size buf q.mem
unfolding thread_round pop take_front Semaphore.wait
thread_round-packet_cell q buf one sem = rw (one, sem) refl

module _ (thread_id tick_time : ℕ) (name : Text) (log_level : ℕ) (text : Text) where
  -- The cell that WriteV queues
  abbrev pub cell_of : LogCell
  cell_of = record {
    thread_id = thread_id;
    tick_time = tick_time;
    name = take (name_size - 1) name;
    log_level = log_level;
    content = text;
  }

-- WriteV
pub write_v-thread_round :
    (thread_id tick_time : ℕ) (name : Text) (log_level : ℕ) (text : Text) (q : PackageQueue)
    (p : FixedMemoryPool)
    → thread_id < 2 ^ 32
    → tick_time < 2 ^ 64
    → log_level < 2 ^ 32
    → NoZero name
    → NoZero text
    → length text < content_size - 1
    → q.pool ≡ some p
    → q.queue ≡ []
    → q.sem ≡ some 0
    → p.free_list ≢ 0
    → header_size + cell_size ≤ p.elem_size
    → p.elem_size < 2 ^ 63
    → (q' : PackageQueue) × (write_v thread_id tick_time name log_level text q ≡ some (true, q'))
      × ((thread_round q').0 ≡ some (cell_of thread_id tick_time name log_level text))
unfolding write_v make_cell filled Semaphore.post
write_v-thread_round thread_id tick_time name log_level text q p t k l nz tz short has empty sem
      free room small =
    let c : LogCell = cell_of thread_id tick_time name log_level text in
    let v : IsCell c = record {
      thread_id = t;
      tick_time = k;
      log_level = l;
      name = NoZero-take (name_size - 1) name nz;
      name_fits = omega (arith, length-take (name_size - 1) name);
      content = tz;
      content_fits = omega arith;
    } in
    let long = length-cell_bytes c v in
    let first = write_first q.mem p (omega arith) small (cell_bytes c) (omega (arith, long)) in
    let q' : PackageQueue = record {
      queue = q.queue ++ (p.free_list ∷ []);
      sem = Semaphore.post q.sem;
      pool = some (taken q p);
      mem = filled c q.mem p;
    } in
    (
      q',
      rw (write_v, lt→ltb _ _ short, queue_cell-run c q p has free) refl,
      thread_round-packet_cell q' p.free_list (ap (λ xs. xs ++ (p.free_list ∷ [])) empty)
            (ap Semaphore.post sem)
          ∙ packet_cell_lem cell_size p.free_list q'.mem (cell_bytes c) free first.0 long
          ∙ ap some (read_cell-cell_bytes c v),
    )
