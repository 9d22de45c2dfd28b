-- ===== src/DynamicPool.antt =====
-- include/tool/DynamicMemoryPool.h: a pool that takes blocks from operator new, and keeps some of those
-- that come back for the next use.
pub mod Laws
mod Heap
mod Tests
use mathlib.Core.List.{reverse}
use iocp_netlib.Base.{
  ℕ, ◌+◌, ◌-◌, ◌%◌, ◌^◌, Bool, ◌||◌, Option, none, some, List, [], ◌∷◌, length, ltb, ◌==◌,
  if◌then◌else◌,
}
use iocp_netlib.FixedPool.{align_up}

-- `cache` is m_cache from its back to its front.
pub record DynamicMemoryPool : Type 0 where
  pub cache : List ℕ
  pub elem_size : ℕ
  pub max_cache : ℕ
  pub used_count : ℕ

-- The constructor; `none` is a failed assert.
unfoldable pub construct : ℕ → ℕ → Option DynamicMemoryPool
construct elem_size max_cache =
    if elem_size == 0 || max_cache == 0
    then none
    else some (record {
      cache = [];
      elem_size = align_up elem_size;
      max_cache = max_cache;
      used_count = 0;
    })

-- Create; `fresh` is the address that operator new gives if the cache is empty.
unfoldable pub create : ℕ → DynamicMemoryPool → ℕ × DynamicMemoryPool
create fresh p = elim p.cache [
  | x ∷ rest ↦ (
    x,
    if x == 0
        then record p { cache = rest }
        else record p { cache = rest; used_count = (p.used_count + 1) % 2 ^ 64 },
  )
  | [] ↦ (fresh, if fresh == 0 then p else record p { used_count = (p.used_count + 1) % 2 ^ 64 })
]

-- Free, with the address that goes to operator delete, 0 if none does; `none` is a failed assert.
unfoldable pub free : ℕ → DynamicMemoryPool → Option (ℕ × DynamicMemoryPool)
free obj p =
    if obj == 0
    then some (0, p)
    else if p.used_count == 0
    then none
    else if ltb (length p.cache) p.max_cache
    then some (0, record p { cache = obj ∷ p.cache; used_count = p.used_count - 1 })
    else some (obj, record p { used_count = p.used_count - 1 })

-- Clear, with the addresses that go to operator delete in order.
unfoldable pub clear : DynamicMemoryPool → List ℕ × DynamicMemoryPool
clear p = (reverse p.cache, record p { cache = [] })

unfoldable pub get_used_count : DynamicMemoryPool → ℕ
get_used_count p = p.used_count

unfoldable pub get_cached_count : DynamicMemoryPool → ℕ
get_cached_count p = length p.cache
