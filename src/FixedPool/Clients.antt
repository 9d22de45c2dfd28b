-- ===== src/FixedPool/Clients.antt =====
-- include/tool/FixedMemoryPool.h: clients of a pool, which take blocks, write into them and give them
-- back, in any order.
use mathlib.Core.List.{Mem, Nodup, Perm, Nodup-append, mem-append_right}
use mathlib.Core.Option.{some-injective}
use iocp_netlib.Base.{
  ℕ, ◌+◌, ◌*◌, ◌^◌, ◌≤◌, ◌<◌, ◌≡◌, refl, sym, ap, subst, ◌∙◌, ◌≢◌, ◌↔◌, inl, inr, some, List, [],
  ◌∷◌, ◌++◌, arith, length,
}
use iocp_netlib.Memory.{Memory, store}
use iocp_netlib.FixedPool.{FixedMemoryPool, create, alloc_raw, free_raw}
use iocp_netlib.FixedPool.Chain.{blocks, length-blocks, mem-blocks-le, mem-blocks_end, blocks_apart}
use iocp_netlib.FixedPool.Laws.{
  IsPool, alloc_raw_lem, free_raw-IsPool, create-IsPool, block-mem, all-Nodup,
}
use iocp_netlib.FixedPool.Writes.{store-IsPool}
use iocp_netlib.FixedPool.Shape.{Asked, create-Asked, sizes, sizes-alloc_raw, sizes-free_raw}

-- The pool in its memory, and the blocks that clients hold.
pub record System : Type 0 where
  pub mem : Memory
  pub pool : FixedMemoryPool
  pub held : List ℕ

pub data Step (s : System) : System → Type 0 where
  takes :
      (alloc_raw s.mem s.pool).0 ≢ 0
      → Step s (record s {
        pool = (alloc_raw s.mem s.pool).1;
        held = (alloc_raw s.mem s.pool).0 ∷ s.held;
      })
  finds_none :
      (alloc_raw s.mem s.pool).0 ≡ 0 → Step s (record s { pool = (alloc_raw s.mem s.pool).1 })
  gives_back :
      (x : ℕ) (rest : List ℕ)
      → Perm s.held (x ∷ rest)
      → Step s (record {
        mem = (free_raw s.mem s.pool x).1;
        pool = (free_raw s.mem s.pool x).0;
        held = rest;
      })
  writes :
      (x a v : ℕ)
      → Mem x s.held
      → x ≤ a
      → a < x + s.pool.elem_size
      → Step s (record s { mem = store s.mem a v })

pub data Reach (s : System) : System → Type 0 where
  here : Reach s s
  next : {t u : System} → Reach s t → Step t u → Reach s u

record IsHeld (p : FixedMemoryPool) (s : System) : Type 0 where
  free : List ℕ
  inv : IsPool s.mem s.pool free s.held
  same : sizes s.pool ≡ sizes p

module _ {p : FixedMemoryPool} {s : System} (v : IsHeld p s) where
  Step-IsHeld : {t : System} → Step s t → IsHeld p t
  Step-IsHeld (takes some_free) = elim (alloc_raw_lem v.inv) [
    | inl (_, e) ↦ absurd (some_free (ap (λ r. r.0) e))
    | inr (x, rest, p', _, e, _, _, _, _, ok) ↦ record {
      free = rest;
      inv = subst (λ r. IsPool s.mem r.1 rest (r.0 ∷ s.held)) (sym e) ok;
      same = sizes-alloc_raw s.mem s.pool ∙ v.same;
    }
  ]
  Step-IsHeld (finds_none none_free) = elim (alloc_raw_lem v.inv) [
    | inl (_, e) ↦ record {
      free = v.free;
      inv = subst (λ r. IsPool s.mem r.1 v.free s.held) (sym e) v.inv;
      same = sizes-alloc_raw s.mem s.pool ∙ v.same;
    }
    | inr (x, _, _, _, e, ne, _, _, _, _) ↦ absurd (ne (sym (ap (λ r. r.0) e) ∙ none_free))
  ]
  Step-IsHeld (gives_back x rest held) = record {
    free = x ∷ v.free;
    inv = free_raw-IsPool x rest v.inv held;
    same = sizes-free_raw s.mem s.pool x ∙ v.same;
  }
  Step-IsHeld (writes x a w m lo hi) = record {
    free = v.free;
    inv = store-IsPool v.inv x a w m lo hi;
    same = v.same;
  }

  held-mem : (x : ℕ) → Mem x s.held → Mem x (v.free ++ s.held)
  held-mem x m = mem-append_right v.free m

  -- AllocRaw gives null exactly when clients hold all blocks.
  null_iff_all : ((alloc_raw s.mem s.pool).0 ≡ 0) ↔ (length s.held ≡ s.pool.capacity)
  null_iff_all = elim (alloc_raw_lem v.inv) [
    | inl (e, r) ↦ ((λ _. omega (arith, v.inv.total, ap length e)), (λ _. ap (λ q. q.0) r))
    | inr (x, rest, _, e, r, ne, _, _, _, _) ↦ (
      (λ z. absurd (ne (sym (ap (λ q. q.0) r) ∙ z))),
      (λ all. absurd (omega (arith, v.inv.total, ap length e))),
    )
  ]

Reach-IsHeld : {p : FixedMemoryPool} {s t : System} → IsHeld p s → Reach s t → IsHeld p t
Reach-IsHeld v here = v
Reach-IsHeld v (next r step) = Step-IsHeld (Reach-IsHeld v r) step

-- What the constructor has made, when no client holds a block.
abbrev IsNew : ℕ → ℕ → FixedMemoryPool × Memory → Type 0
IsNew elem n r =
    (r.0.capacity ≡ n) × (elem ≤ r.0.elem_size) × ((free : List ℕ) × IsPool r.1 r.0 free [])

module _ (malloc : ℕ → ℕ) (elem n : ℕ) (mem mem' : Memory) (p : FixedMemoryPool) (he : elem ≢ 0)
    (hn : n ≢ 0) (small : elem + 7 < 2 ^ 64) (few : n < 2 ^ 64)
    (memory : (size : ℕ) → malloc size ≢ 0) (made : create malloc elem n mem ≡ some (p, mem'))
    (ends : p.pool + n * p.elem_size ≤ 2 ^ 64) where
  create-IsNew : IsNew elem n (p, mem')
  create-IsNew =
      let (q, m, e, inv, fits, _) = create-IsPool malloc elem n mem he hn small few memory in
      subst (IsNew elem n) (some-injective _ _ (sym e ∙ made))
        (omega (arith, inv.total, length-blocks q.pool q.elem_size n), fits, (_, inv))

  created-IsHeld : IsHeld p (record { mem = mem'; pool = p; held = [] })
  created-IsHeld = record { free = create-IsNew.2.0; inv = create-IsNew.2.1; same = refl }

  -- The size that malloc is asked for does not wrap.
  asked : p.pool ≡ malloc (n * p.elem_size)
  asked =
      subst (Asked malloc n) made (create-Asked malloc elem n mem)
      ∙ ap malloc (omega (arith, create-IsNew.2.1.based, ends))

  -- Clients of a pool that the constructor has made, with memory and with sizes that are not 0 and
  -- not near 2 ^ 64, where the blocks after the address that malloc gave end within the 2 ^ 64
  -- addresses, so that the size asked for has not wrapped. The clients take blocks, write words into
  -- the blocks they hold and give those back, in any order: malloc was asked for all blocks, no block
  -- is held twice, the blocks that are held have room for an object, do not overlap and lie inside
  -- the memory that malloc gave, free_count is the number of those that are not held, and AllocRaw
  -- gives null exactly when all are held.
  pub Reach-clients :
      {s : System}
      → Reach (record { mem = mem'; pool = p; held = [] }) s
      → (p.pool ≡ malloc (n * p.elem_size))
        × (elem ≤ p.elem_size)
        × Nodup s.held
        × ((x : ℕ) → Mem x s.held → (p.pool ≤ x) × (x + p.elem_size ≤ p.pool + n * p.elem_size))
        × ((x y : ℕ) → Mem x s.held → Mem y s.held → x < y → x + p.elem_size ≤ y)
        × (length s.held + s.pool.free_count ≡ n)
        × (((alloc_raw s.mem s.pool).0 ≡ 0) ↔ (length s.held ≡ n))
  Reach-clients {s} r =
      let v = Reach-IsHeld created-IsHeld r in
      let known : (x : ℕ) → Mem x s.held → Mem x (blocks p.pool p.elem_size n) = λ x m.
        subst (λ z. Mem x (blocks z.0 z.1 z.2))
          (v.same ∙ ap (λ c. (p.pool, p.elem_size, c)) create-IsNew.0)
          (block-mem v.inv x (held-mem v x m)) in
      (
        asked,
        create-IsNew.1,
        (Nodup-append.0 (all-Nodup v.inv)).1,
        (λ x m. (mem-blocks-le x _ _ _ (known x m), mem-blocks_end x _ _ _ (known x m))),
        (λ x y m k. blocks_apart x y _ _ _ (known x m) (known y k)),
        omega (arith, v.inv.counted, v.inv.total, create-IsNew.0, ap (λ z. z.2) v.same),
        subst (λ c. ((alloc_raw s.mem s.pool).0 ≡ 0) ↔ (length s.held ≡ c))
            (ap (λ z. z.2) v.same ∙ create-IsNew.0) (null_iff_all v),
      )
