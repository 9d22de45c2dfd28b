-- ===== src/PackageQueue/Alloc.antt =====
-- Baselib/PackageQueue.cpp, AllocWritePacket with a free block: an empty packet.
use iocp_netlib.Base.{
  ℕ, ◌+◌, ◌-◌, ◌%◌, ◌^◌, ◌≤◌, ◌<◌, ◌≡◌, ◌≢◌, refl, ap, ◌∙◌, Bool, false, true, some, List, arith,
  length, leb, ◌==◌, if◌then◌else◌,
}
use iocp_netlib.Memory.{Memory}
use iocp_netlib.FixedPool.{FixedMemoryPool, alloc_raw}
use iocp_netlib.Packet.{header_size, attach, write, payload}
use iocp_netlib.Packet.Append.{Keeps, write-Keeps}
use iocp_netlib.PackageQueue.{PackageQueue, alloc_write_packet}

pub nonzero : (n : ℕ) → n ≢ 0 → (n == 0) ≡ false
nonzero n ne = ground arith

pub le→leb : (a b : ℕ) → a ≤ b → leb a b ≡ true
le→leb a b h = ground arith

-- The capacity of a packet in a block of the pool
unfoldable pub room_of : FixedMemoryPool → ℕ
room_of p = (p.elem_size + 2 ^ 64 - header_size) % 2 ^ 64

-- The memory with an empty packet in the first free block
unfoldable pub attached : Memory → FixedMemoryPool → Memory
unfolding room_of
attached mem p = attach mem p.free_list (room_of p)

module _ (mem : Memory) (p : FixedMemoryPool) (room : header_size ≤ p.elem_size)
    (small : p.elem_size < 2 ^ 63) where
  pub room_of_lem : room_of p + header_size ≡ p.elem_size
  unfolding room_of
  room_of_lem = omega arith

  pub room_of-small : room_of p < 2 ^ 63
  room_of-small = let e = room_of_lem in omega arith

  pub attached_lem :
      ((attached mem p).word p.free_list ≡ 0)
      × ((attached mem p).word (p.free_list + 8) ≡ room_of p)
  unfolding attached attach
  attached_lem = ground arith

  -- The first write of what fits is the whole payload.
  pub write_first :
      (d : List ℕ)
      → header_size + length d ≤ p.elem_size
      → (payload (write (attached mem p) p.free_list d).1 p.free_list ≡ d)
        × Keeps (write (attached mem p) p.free_list d).1 p.free_list (room_of p)
  write_first d fits =
      let (empty, full) = attached_lem in
      let e = room_of_lem in
      let r =
        write-Keeps (attached mem p) p.free_list (room_of p) d (full, rw empty (omega arith))
          room_of-small (omega arith) in
      let inside : leb (0 + length d) (room_of p) ≡ true = le→leb _ _ (omega arith) in
      (r.0 ∙ rw (empty, inside) refl, r.1)

-- The pool behind an allocation
abbrev pub taken : PackageQueue → FixedMemoryPool → FixedMemoryPool
taken q p = record p {
  free_list = q.mem.word p.free_list;
  free_count = (p.free_count + 2 ^ 64 - 1) % 2 ^ 64;
}

alloc_raw-run :
    (q : PackageQueue) (p : FixedMemoryPool)
    → p.free_list ≢ 0
    → alloc_raw q.mem p ≡ (p.free_list, taken q p)
unfolding alloc_raw
alloc_raw-run q p free =
    ap (λ (b : Bool). if b then (0, p) else (p.free_list, taken q p)) (nonzero p.free_list free)

pub alloc_write_packet-run :
    (q : PackageQueue) (p : FixedMemoryPool)
    → q.pool ≡ some p
    → p.free_list ≢ 0
    → alloc_write_packet q ≡ (
      some p.free_list,
      record { queue = q.queue; sem = q.sem; pool = some (taken q p); mem = attached q.mem p },
    )
unfolding alloc_write_packet attached room_of
alloc_write_packet-run q p has free =
    rw (alloc_write_packet, has, alloc_raw-run q p free, nonzero p.free_list free) refl
