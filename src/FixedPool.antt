-- ===== src/FixedPool.antt =====
-- include/tool/FixedMemoryPool.h: blocks of one size, the free ones linked through their first word.
-- Addresses and sizes are those of a 64-bit build, and 0 is the null pointer.
pub mod Chain
pub mod Laws
pub mod Writes
pub mod Shape
mod Clients
mod Tests
use iocp_netlib.Base.{
  ℕ, zero, suc, ◌+◌, ◌-◌, ◌*◌, ◌/◌, ◌%◌, ◌^◌, Bool, ◌||◌, Option, none, some, ltb, ◌==◌,
  if◌then◌else◌,
}
use iocp_netlib.Memory.{Memory, store}

pub record FixedMemoryPool : Type 0 where
  pub pool : ℕ
  pub free_list : ℕ
  pub elem_size : ℕ
  pub capacity : ℕ
  pub free_count : ℕ

-- (size + align - 1) & ~(align - 1) in size_t, with align = sizeof(void*) = 8.
unfoldable pub align_up : ℕ → ℕ
align_up size = (size + 7) % 2 ^ 64 / 8 * 8

-- The loop of the constructor: links `n` blocks from `p` on, each to the next, within a block of malloc,
-- where an address does not wrap. It returns the last
-- address, whose link is still to be written.
unfoldable pub link_blocks : ℕ → ℕ → ℕ → Memory → ℕ × Memory
link_blocks zero p size mem = (p, mem)
link_blocks (suc n) p size mem = link_blocks n (p + size) size (store mem p (p + size))

-- The constructor. `malloc` gives the address for a size in size_t, 0 if there is no memory, and
-- `none` stands for a failed assert.
unfoldable pub create : (ℕ → ℕ) → ℕ → ℕ → Memory → Option (FixedMemoryPool × Memory)
unfolding align_up link_blocks
create malloc elem_size capacity mem =
    let size = align_up (if ltb elem_size 8 then 8 else elem_size) in
    let base = malloc (size * capacity % 2 ^ 64) in
    let (last, linked) = link_blocks (capacity - 1) base size mem in
    if elem_size == 0 || capacity == 0
    then none
    else if base == 0
    then some
        (record { pool = 0; free_list = 0; elem_size = size; capacity = 0; free_count = 0 }, mem)
    else some (
      record {
        pool = base;
        free_list = base;
        elem_size = size;
        capacity = capacity;
        free_count = capacity;
      },
      store linked last 0,
    )

unfoldable pub is_valid : FixedMemoryPool → Bool
is_valid p = ltb 0 p.pool

unfoldable pub get_used_count : FixedMemoryPool → ℕ
get_used_count p = (p.capacity + 2 ^ 64 - p.free_count) % 2 ^ 64

unfoldable pub alloc_raw : Memory → FixedMemoryPool → ℕ × FixedMemoryPool
alloc_raw mem p = if p.free_list == 0 then (0, p) else (
  p.free_list,
  record p { free_list = mem.word p.free_list; free_count = (p.free_count + 2 ^ 64 - 1) % 2 ^ 64 },
)

unfoldable pub free_raw : Memory → FixedMemoryPool → ℕ → FixedMemoryPool × Memory
free_raw mem p ptr = if ptr == 0 then (p, mem) else (
  record p { free_list = ptr; free_count = (p.free_count + 1) % 2 ^ 64 },
  store mem ptr p.free_list,
)

-- Create<T>: the raw block, if an object of this size fits.
unfoldable pub create_object : Memory → FixedMemoryPool → ℕ → ℕ × FixedMemoryPool
unfolding alloc_raw
create_object mem p size = if ltb p.elem_size size then (0, p) else alloc_raw mem p
