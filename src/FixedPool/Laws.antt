-- ===== src/FixedPool/Laws.antt =====
-- include/tool/FixedMemoryPool.h: the invariant of a pool and what each operation does to it.
use mathlib.Core.List.{Mem, Nodup, Perm, Nodup-append, mem-append_right, mem-cons_self, perm_middle}
use mathlib.Core.List.Perm
use iocp_netlib.Base.{
  ℕ, zero, suc, ◌+◌, ◌*◌, ◌%◌, ◌^◌, ◌≤◌, ◌<◌, ◌≡◌, refl, ◌≢◌, ◌⊎◌, inl, inr, some, List, [], ◌∷◌,
  ◌++◌, append-nil, arith, length, ltb, Perm-length, if◌then◌else◌,
}
use iocp_netlib.Memory.{Memory, store, update_self}
use iocp_netlib.FixedPool.{FixedMemoryPool, align_up, link_blocks, create, alloc_raw, free_raw}
use iocp_netlib.FixedPool.Chain.{
  Chain, Chain-update, blocks, length-blocks, blocks-Nodup, mem-blocks-le, mem-blocks_end,
  blocks_apart, link_blocks-Chain,
}

-- `free` are the blocks of the free list in order, `used` those that clients hold.
pub record IsPool (mem : Memory) (p : FixedMemoryPool) (free used : List ℕ) : Type 0 where
  pub chain : Chain mem.word p.free_list free
  pub counted : p.free_count ≡ length free
  pub owned : Perm (free ++ used) (blocks p.pool p.elem_size p.capacity)
  pub total : length free + length used ≡ p.capacity
  pub sized : 8 ≤ p.elem_size
  pub based : 0 < p.pool
  pub small : p.capacity < 2 ^ 64

align_up_bounds : (size : ℕ) → size + 7 < 2 ^ 64 → (size ≤ align_up size) × (align_up size % 8 ≡ 0)
unfolding align_up
align_up_bounds size h = omega arith

module _ (malloc : ℕ → ℕ) (elem n : ℕ) (mem : Memory) where
  block_size : ℕ
  block_size = align_up (if ltb elem 8 then 8 else elem)

  base : ℕ
  unfolding block_size
  base = malloc (block_size * suc n % 2 ^ 64)

  created : FixedMemoryPool
  unfolding block_size base
  created = record {
    pool = base;
    free_list = base;
    elem_size = block_size;
    capacity = suc n;
    free_count = suc n;
  }

  linked : Memory
  unfolding block_size base
  linked = store (link_blocks n base block_size mem).1 (link_blocks n base block_size mem).0 0

  block_size_bounds :
      elem + 7 < 2 ^ 64 → (elem ≤ block_size) × (8 ≤ block_size) × (block_size % 8 ≡ 0)
  unfolding block_size align_up
  block_size_bounds h = ground arith

  create_run : elem ≢ 0 → base ≢ 0 → create malloc elem (suc n) mem ≡ some (created, linked)
  unfolding create created linked base block_size
  create_run he hb = ground arith

  created-IsPool :
      elem + 7 < 2 ^ 64
      → suc n < 2 ^ 64
      → base ≢ 0
      → IsPool linked created (blocks base block_size (suc n)) []
  unfolding created linked
  created-IsPool he hn hb = record {
    chain =
        link_blocks-Chain n base block_size mem (omega arith) (omega (arith, block_size_bounds he));
    counted = omega (arith, length-blocks base block_size (suc n));
    owned = rw append-nil (Perm.refl _);
    total = omega (arith, length-blocks base block_size (suc n));
    sized = (block_size_bounds he).1;
    based = omega arith;
    small = hn;
  }

module _ {mem : Memory} {p : FixedMemoryPool} {free used : List ℕ}
    (inv : IsPool mem p free used) where
  -- Every block that the pool knows lies inside it.
  pub block-mem : (x : ℕ) → Mem x (free ++ used) → Mem x (blocks p.pool p.elem_size p.capacity)
  block-mem x m = (Perm.mem_iff inv.owned).0 m

  pub all-Nodup : Nodup (free ++ used)
  all-Nodup =
      Perm.nodup (Perm.symm inv.owned)
        (blocks-Nodup p.pool p.elem_size p.capacity (omega (arith, inv.sized)))

  ne-null : (x : ℕ) → Mem x (free ++ used) → x ≢ 0
  ne-null x m = omega (arith, mem-blocks-le x _ _ _ (block-mem x m), inv.based)

-- What AllocRaw returns: with no free block it gives null and changes nothing; otherwise it takes the first one.
pub data Alloc (mem : Memory) (p : FixedMemoryPool) (free used : List ℕ)
    : ℕ × FixedMemoryPool → Type 0 where
  empty : {r : ℕ × FixedMemoryPool} → free ≡ [] → r ≡ (0, p) → Alloc mem p free used r
  taken :
      {r : ℕ × FixedMemoryPool} (x : ℕ) (rest : List ℕ) (p' : FixedMemoryPool)
      → free ≡ x ∷ rest
      → r ≡ (x, p')
      → x ≢ 0
      → IsPool mem p' rest (x ∷ used)
      → Alloc mem p free used r

module _ (mem : Memory) (p : FixedMemoryPool) (used : List ℕ) where
  popped : ℕ → List ℕ → FixedMemoryPool
  popped x xs = record p { free_list = mem.word x; free_count = length xs }

  module _ (x : ℕ) (xs : List ℕ) (inv : IsPool mem p (x ∷ xs) used) where
    alloc_raw-popped : alloc_raw mem p ≡ (x, popped x xs)
    unfolding alloc_raw popped
    alloc_raw-popped = ground (arith, inv.total, inv.small, inv.counted, inv.chain)

    popped-IsPool : IsPool mem (popped x xs) xs (x ∷ used)
    unfolding popped
    popped-IsPool = record {
      chain = inv.chain.2;
      counted = refl;
      owned = Perm.trans (perm_middle xs used) inv.owned;
      total = omega (arith, inv.total);
      sized = inv.sized;
      based = inv.based;
      small = inv.small;
    }

  -- AllocRaw on every pool that keeps the invariant.
  pub alloc_raw-Alloc :
      (free : List ℕ) → IsPool mem p free used → Alloc mem p free used (alloc_raw mem p)
  unfolding alloc_raw
  alloc_raw-Alloc [] inv = empty refl (ground (arith, inv.chain))
  alloc_raw-Alloc (x ∷ xs) inv =
      taken x xs (popped x xs) refl (alloc_raw-popped x xs inv) inv.chain.1 (popped-IsPool x xs inv)

module _ {mem : Memory} {p : FixedMemoryPool} {free used : List ℕ} (x : ℕ) (rest : List ℕ)
    (inv : IsPool mem p free used) (held : Perm used (x ∷ rest)) where
  held-mem : Mem x (free ++ used)
  held-mem = mem-append_right free ((Perm.mem_iff held).1 mem-cons_self)

  not_free : ¬ Mem x free
  not_free m = (Nodup-append.0 (all-Nodup inv)).2 x m ((Perm.mem_iff held).1 mem-cons_self)

  pushed : FixedMemoryPool
  pushed = record p { free_list = x; free_count = suc (length free) }

  free_raw_pushed : free_raw mem p x ≡ (pushed, store mem x p.free_list)
  unfolding free_raw pushed
  free_raw_pushed =
      ground (arith, ne-null inv x held-mem, inv.total, inv.small, inv.counted, Perm-length held)

  -- Free gives a block that a client holds back, in front of the free list.
  pub free_raw-IsPool : IsPool (free_raw mem p x).1 (free_raw mem p x).0 (x ∷ free) rest
  unfolding pushed
  free_raw-IsPool = rw free_raw_pushed (record {
    chain = (
      refl,
      ne-null inv x held-mem,
      rw (update_self mem.word x p.free_list)
          (Chain-update mem.word x p.free_list p.free_list free not_free inv.chain),
    );
    counted = refl;
    owned =
        Perm.trans (Perm.symm (perm_middle free rest))
          (Perm.trans (Perm.append_left free (Perm.symm held)) inv.owned);
    total = omega (arith, inv.total, Perm-length held);
    sized = inv.sized;
    based = inv.based;
    small = inv.small;
  })

-- The constructor, when malloc has memory and neither size is 0 or near 2 ^ 64: it makes a pool whose
-- free list is all its blocks in the order of their addresses, each block is at least as large as an
-- object, and block sizes are multiples of 8.
pub create-IsPool :
    (malloc : ℕ → ℕ) (elem capacity : ℕ) (mem : Memory)
    → elem ≢ 0
    → capacity ≢ 0
    → elem + 7 < 2 ^ 64
    → capacity < 2 ^ 64
    → ((size : ℕ) → malloc size ≢ 0)
    → (p : FixedMemoryPool) × (mem' : Memory) × (create malloc elem capacity mem ≡ some (p, mem'))
      × IsPool mem' p (blocks p.pool p.elem_size capacity) []
      × (elem ≤ p.elem_size)
      × (p.elem_size % 8 ≡ 0)
unfolding created base
create-IsPool malloc elem zero mem he hc small fits memory = absurd (hc refl)
create-IsPool malloc elem (suc n) mem he hc small fits memory = (
  created malloc elem n mem,
  linked malloc elem n mem,
  create_run malloc elem n mem he (memory _),
  created-IsPool malloc elem n mem small fits (memory _),
  (block_size_bounds malloc elem n mem small).0,
  (block_size_bounds malloc elem n mem small).2,
)

module _ {mem : Memory} {p : FixedMemoryPool} {free used : List ℕ}
    (inv : IsPool mem p free used) where
  -- What AllocRaw hands out on a pool that keeps its invariant: null exactly when no block is free,
  -- and then nothing changes; otherwise the first free block, which lies inside the memory of the
  -- pool and overlaps no block that a client holds, and the pool keeps its invariant with that block
  -- in use.
  pub alloc_raw_lem :
      ((free ≡ []) × (alloc_raw mem p ≡ (0, p)))
      ⊎ ((x : ℕ) × (rest : List ℕ) × (p' : FixedMemoryPool) × (free ≡ x ∷ rest)
          × (alloc_raw mem p ≡ (x, p'))
          × (x ≢ 0)
          × (p.pool ≤ x)
          × (x + p.elem_size ≤ p.pool + p.capacity * p.elem_size)
          × ((y : ℕ)
              → Mem y used
              → (x < y → x + p.elem_size ≤ y) × (y < x → y + p.elem_size ≤ x) × (x ≢ y))
          × IsPool mem p' rest (x ∷ used))
  alloc_raw_lem = elim (alloc_raw-Alloc mem p used free inv) [
    | empty e r ↦ inl (e, r)
    | taken x rest p' e r ne ok ↦
        let known : Mem x (blocks p.pool p.elem_size p.capacity) =
          block-mem inv x (rw e mem-cons_self) in
        inr (
          x,
          rest,
          p',
          e,
          r,
          ne,
          mem-blocks-le x _ _ _ known,
          mem-blocks_end x _ _ _ known,
          (λ y m.
              let other = block-mem inv y (mem-append_right free m) in
              (
                blocks_apart x y _ _ _ known other,
                blocks_apart y x _ _ _ other known,
                λ q.
                    ((Nodup-append {l₁ = free} {l₂ = used}).0 (all-Nodup inv)).2 x
                      (rw e mem-cons_self) (rw q m),
              )),
          ok,
        )
  ]
