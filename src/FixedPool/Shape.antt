-- ===== src/FixedPool/Shape.antt =====
-- include/tool/FixedMemoryPool.h: the place and the sizes of a pool, which only the constructor sets.
use iocp_netlib.Base.{
  ℕ, ◌*◌, ◌%◌, ◌^◌, ◌≤◌, ◌≡◌, refl, sym, ◌≢◌, inl, inr, Option, none, some, arith, ltb, ◌==◌, ◌||◌,
  ==_iff, Bool-cases, if◌then◌else◌,
}
use iocp_netlib.Memory.{Memory}
use iocp_netlib.FixedPool.{FixedMemoryPool, alloc_raw, free_raw, align_up, create}

-- The address of the first block, the size of a block and the number of blocks.
abbrev pub sizes : FixedMemoryPool → ℕ × ℕ × ℕ
sizes p = (p.pool, p.elem_size, p.capacity)

pub sizes-alloc_raw : (mem : Memory) (p : FixedMemoryPool) → sizes (alloc_raw mem p).1 ≡ sizes p
unfolding alloc_raw
sizes-alloc_raw mem p = ground arith

pub sizes-free_raw :
    (mem : Memory) (p : FixedMemoryPool) (x : ℕ) → sizes (free_raw mem p x).0 ≡ sizes p
unfolding free_raw
sizes-free_raw mem p x = ground arith

-- What the constructor of the pool makes.
abbrev pub created_shape : Option (FixedMemoryPool × Memory) → Option (ℕ × ℕ × ℕ)
created_shape none = none
created_shape (some (p, mem)) = some (sizes p)

pub created_shape-create :
    (malloc : ℕ → ℕ) (elem capacity : ℕ) (mem : Memory)
    → 8 ≤ elem
    → capacity ≢ 0
    → ((size : ℕ) → malloc size ≢ 0)
    → created_shape (create malloc elem capacity mem)
      ≡ some (malloc (align_up elem * capacity % 2 ^ 64), align_up elem, capacity)
unfolding create
created_shape-create malloc elem capacity mem fits ne memory =
    ground (arith, memory (align_up elem * capacity % 2 ^ 64))

-- The address is what malloc has answered for the blocks that are wanted, in size_t.
abbrev pub Asked : (ℕ → ℕ) → ℕ → Option (FixedMemoryPool × Memory) → Type 0
Asked malloc n none = Unit {0}
Asked malloc n (some (p, mem)) = p.pool ≡ malloc (p.elem_size * n % 2 ^ 64)

pub create-Asked :
    (malloc : ℕ → ℕ) (elem n : ℕ) (mem : Memory) → Asked malloc n (create malloc elem n mem)
unfolding create
create-Asked malloc elem n mem = elim (Bool-cases (elem == 0 || n == 0)) [
  | inl e ↦ rw e tt
  | inr e ↦
      let base : ℕ = malloc (align_up (if ltb elem 8 then 8 else elem) * n % 2 ^ 64) in
      elim (Bool-cases (base == 0)) [
        | inl z ↦ rw (e, z) (sym ((==_iff base 0).0 z))
        | inr nz ↦ rw (e, nz) refl
      ]
]
