-- ===== src/FixedPool/Chain.antt =====
-- include/tool/FixedMemoryPool.h: the free list as a chain of blocks in memory.
use mathlib.Core.Logic.Or
use mathlib.Core.List.{Mem, Nodup, Nodup-cons, Nodup-nil, mem-cons, mem-cons_of_mem, not-mem-nil}
use native.Mathlib.Bridge.{le_prop}
use iocp_netlib.Base.{
  ℕ, zero, suc, ◌+◌, ◌*◌, ◌≤◌, ◌<◌, ◌≡◌, refl, sym, subst, ◌∙◌, ◌≢◌, List, [], ◌∷◌, arith, length,
}
use iocp_netlib.Memory.{Memory, update, store, update_other}
use iocp_netlib.FixedPool.{link_blocks}

-- From the address `head` the links of the memory `w` go through these blocks, and end.
abbrev pub Chain : (ℕ → ℕ) → ℕ → List ℕ → Type 0
Chain w head [] = head ≡ 0
Chain w head (x ∷ xs) = (head ≡ x) × (x ≢ 0) × Chain w (w x) xs

pub Chain-update :
    (w : ℕ → ℕ) (a v head : ℕ) (xs : List ℕ)
    → ¬ Mem a xs
    → Chain w head xs
    → Chain (update w a v) head xs
Chain-update w a v head [] out c = c
Chain-update w a v head (x ∷ xs) out (e, ne, c) = (
  e,
  ne,
  rw (update_other w a v x (λ q. out (mem-cons.1 (Or.inl q))))
      (Chain-update w a v (w x) xs (λ m. out (mem-cons_of_mem x m)) c),
)

abbrev pub blocks : ℕ → ℕ → ℕ → List ℕ
blocks base size zero = []
blocks base size (suc n) = base ∷ blocks (base + size) size n

pub length-blocks : (base size n : ℕ) → length (blocks base size n) ≡ n
length-blocks base size zero = refl
length-blocks base size (suc n) = omega (arith, length-blocks (base + size) size n)

pub mem-blocks-le : (x base size n : ℕ) → Mem x (blocks base size n) → base ≤ x
mem-blocks-le x base size zero m = absurd (not-mem-nil m)
mem-blocks-le x base size (suc n) m =
    Or.elim le_prop (mem-cons.0 m) (λ e. omega arith)
      (λ r. omega (arith, mem-blocks-le x (base + size) size n r))

pub mem-blocks_end : (x base size n : ℕ) → Mem x (blocks base size n) → x + size ≤ base + n * size
mem-blocks_end x base size zero m = absurd (not-mem-nil m)
mem-blocks_end x base size (suc n) m =
    Or.elim le_prop (mem-cons.0 m) (λ e. omega arith)
      (λ r. omega (arith, mem-blocks_end x (base + size) size n r))

-- Of two different blocks the lower one ends before the other begins.
pub blocks_apart :
    (x y base size n : ℕ)
    → Mem x (blocks base size n)
    → Mem y (blocks base size n)
    → x < y
    → x + size ≤ y
blocks_apart x y base size zero m k h = absurd (not-mem-nil m)
blocks_apart x y base size (suc n) m k h =
    Or.elim le_prop (mem-cons.0 k)
      (λ e. absurd (omega (arith, mem-blocks-le x base size (suc n) m)))
      (λ r.
        Or.elim le_prop (mem-cons.0 m) (λ e. omega (arith, mem-blocks-le y (base + size) size n r))
          (λ q. blocks_apart x y (base + size) size n q r h))

pub blocks-Nodup : (base size n : ℕ) → 0 < size → Nodup (blocks base size n)
blocks-Nodup base size zero h = Nodup-nil
blocks-Nodup base size (suc n) h = Nodup-cons.1 (
  (λ m. absurd (omega (arith, mem-blocks-le base (base + size) size n m))),
  blocks-Nodup (base + size) size n h,
)

link_blocks_below :
    (n p size a : ℕ) (mem : Memory) → a < p → (link_blocks n p size mem).1.word a ≡ mem.word a
unfolding link_blocks
link_blocks_below zero p size a mem h = refl
link_blocks_below (suc n) p size a mem h =
    ground (arith, link_blocks_below n (p + size) size a (store mem p (p + size)))

link_blocks_end : (n p size : ℕ) (mem : Memory) → p ≤ (link_blocks n p size mem).0
unfolding link_blocks
link_blocks_end zero p size mem = omega arith
link_blocks_end (suc n) p size mem =
    omega (arith, link_blocks_end n (p + size) size (store mem p (p + size)))

-- The constructor's loop, with the last link cleared, makes a chain of all blocks.
pub link_blocks-Chain :
    (n p size : ℕ) (mem : Memory)
    → 0 < p
    → 0 < size
    → Chain
        (store (link_blocks n p size mem).1 (link_blocks n p size mem).0 0).word
        p
        (blocks p size (suc n))
unfolding link_blocks
link_blocks-Chain zero p size mem hp hs = (refl, omega arith, ground arith)
link_blocks-Chain (suc n) p size mem hp hs = (
  refl,
  omega arith,
  subst (λ h. Chain w h (blocks (p + size) size (suc n))) (sym link)
      (link_blocks-Chain n (p + size) size next (omega arith) hs),
)
  where
    next : Memory
    next = store mem p (p + size)

    w : ℕ → ℕ
    w = (store (link_blocks n (p + size) size next).1 (link_blocks n (p + size) size next).0 0).word

    link : w p ≡ p + size
    link =
        update_other (link_blocks n (p + size) size next).1.word
          (link_blocks n (p + size) size next).0 0 p
          (omega (arith, link_blocks_end n (p + size) size next))
        ∙ link_blocks_below n (p + size) size p next (omega arith)
        ∙ (ground arith)
