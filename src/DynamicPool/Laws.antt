-- ===== src/DynamicPool/Laws.antt =====
-- include/tool/DynamicMemoryPool.h: the blocks that clients hold are counted and never handed out twice.
use mathlib.Core.Logic.Or
use mathlib.Core.List.{
  Mem, Nodup, Perm, Nodup-cons, mem-append_right, mem-cons, mem-cons_self, mem-cons_of_mem,
  perm_middle,
}
use mathlib.Core.List.Perm
use native.Mathlib.Decide.{dec_lt}
use native.Mathlib.Bridge.{le_prop}
use iocp_netlib.Base.{
  ℕ, ◌+◌, ◌-◌, ◌^◌, ◌≤◌, ◌<◌, ◌≡◌, refl, ap, subst, ◌≢◌, ◌⊎◌, inl, inr, some, List, [], ◌∷◌, ◌++◌,
  arith, length, Perm-length, List-cases,
}
use iocp_netlib.DynamicPool.{DynamicMemoryPool, create, free, get_used_count}

-- `out` are the blocks that clients hold.
pub record IsBalanced (p : DynamicMemoryPool) (out : List ℕ) : Type 0 where
  pub counted : p.used_count ≡ length out
  pub bounded : length p.cache ≤ p.max_cache
  pub distinct : Nodup (p.cache ++ out)
  pub positive : (x : ℕ) → Mem x (p.cache ++ out) → 0 < x

module _ (p : DynamicMemoryPool) (out : List ℕ) (inv : IsBalanced p out)
    (room : length out + 1 < 2 ^ 64) where
  taken : List ℕ → DynamicMemoryPool
  taken cache = record p { cache = cache; used_count = p.used_count + 1 }

  create-cached :
      (x : ℕ) (rest : List ℕ)
      → p.cache ≡ x ∷ rest
      → x ≢ 0
      → (fresh : ℕ) → create fresh p ≡ (x, taken rest)
  unfolding create taken
  create-cached x rest e ne fresh = ground (arith, inv.counted)

  create-fresh : (fresh : ℕ) → p.cache ≡ [] → fresh ≢ 0 → create fresh p ≡ (fresh, taken [])
  unfolding create taken
  create-fresh fresh e ne = ground (arith, inv.counted)

  -- The pool with `rest` cached, when `x` and the blocks of `out` are those outside it.
  taken-IsBalanced :
      (x : ℕ) (rest : List ℕ)
      → length rest ≤ p.max_cache
      → Nodup (x ∷ (rest ++ out))
      → ((y : ℕ) → Mem y (x ∷ (rest ++ out)) → 0 < y)
      → IsBalanced (taken rest) (x ∷ out)
  unfolding taken
  taken-IsBalanced x rest fits distinct positive = record {
    counted = omega (arith, inv.counted);
    bounded = fits;
    distinct = Perm.nodup (Perm.symm (perm_middle rest out)) distinct;
    positive = λ y m. positive y ((Perm.mem_iff (perm_middle rest out)).0 m);
  }

  not-out : (x : ℕ) (rest : List ℕ) → Nodup (x ∷ (rest ++ out)) → ¬ Mem x out
  not-out x rest distinct m = (Nodup-cons.0 distinct).0 (mem-append_right rest m)

module _ {p : DynamicMemoryPool} {out : List ℕ} (inv : IsBalanced p out) where
  fresh_positive : (fresh : ℕ) → fresh ≢ 0 → p.cache ≡ [] → (y : ℕ) → Mem y (fresh ∷ out) → 0 < y
  fresh_positive fresh ne e y m =
      Or.elim le_prop (mem-cons.0 m) (λ q. omega arith)
        (λ r. inv.positive y (mem-append_right p.cache r))

  -- Create on a pool that keeps its invariant, when operator new gives an address that is not in use
  -- and fewer than 2 ^ 64 - 1 blocks are out: the block is not null, no client holds it, and the pool
  -- keeps its invariant with that block out and one more in the used count.
  pub create-IsBalanced :
      (fresh : ℕ)
      → fresh ≢ 0
      → ¬ Mem fresh (p.cache ++ out)
      → length out + 1 < 2 ^ 64
      → (x : ℕ) × (p' : DynamicMemoryPool) × (create fresh p ≡ (x, p'))
        × (x ≢ 0)
        × (¬ Mem x out)
        × (get_used_count p' ≡ get_used_count p + 1)
        × IsBalanced p' (x ∷ out)
  unfolding taken get_used_count
  create-IsBalanced fresh ne unused room = elim (List-cases p.cache) [
    | inl e ↦
        let distinct : Nodup (fresh ∷ ([] ++ out)) = Nodup-cons.1 (
          subst (λ l. ¬ Mem fresh (l ++ out)) e unused,
          subst (λ l. Nodup (l ++ out)) e inv.distinct,
        ) in
        (
          fresh,
          taken p out inv room [],
          create-fresh p out inv room fresh e ne,
          ne,
          not-out p out inv room fresh [] distinct,
          refl,
          taken-IsBalanced p out inv room fresh [] (omega arith) distinct
              (fresh_positive fresh ne e),
        )
    | inr (x, rest, e) ↦
        let distinct : Nodup (x ∷ (rest ++ out)) = subst (λ l. Nodup (l ++ out)) e inv.distinct in
        let positive : (y : ℕ) → Mem y (x ∷ (rest ++ out)) → 0 < y =
          subst (λ l. (y : ℕ) → Mem y (l ++ out) → 0 < y) e inv.positive in
        (
          x,
          taken p out inv room rest,
          create-cached p out inv room x rest e (omega (arith, positive x mem-cons_self)) fresh,
          omega (arith, positive x mem-cons_self),
          not-out p out inv room x rest distinct,
          refl,
          taken-IsBalanced p out inv room x rest (omega (arith, inv.bounded, ap length e)) distinct
              positive,
        )
  ]

  module _ (x : ℕ) (rest : List ℕ) (held : Perm out (x ∷ rest)) where
    x-ne : x ≢ 0
    x-ne =
        omega
          (arith, inv.positive x (mem-append_right p.cache ((Perm.mem_iff held).1 mem-cons_self)))

    moved : Perm (p.cache ++ out) (x ∷ (p.cache ++ rest))
    moved = Perm.trans (Perm.append_left p.cache held) (perm_middle p.cache rest)

    given : List ℕ → DynamicMemoryPool
    given cache = record p { cache = cache; used_count = p.used_count - 1 }

    used-positive : 0 < p.used_count
    used-positive = omega (arith, inv.counted, Perm-length held)

    free-kept : length p.cache < p.max_cache → free x p ≡ some (0, given (x ∷ p.cache))
    unfolding free given
    free-kept h = ground (arith, x-ne, used-positive)

    free-deleted : length p.cache ≡ p.max_cache → free x p ≡ some (x, given p.cache)
    unfolding free given
    free-deleted h = ground (arith, x-ne, used-positive)

    kept-IsBalanced : length p.cache < p.max_cache → IsBalanced (given (x ∷ p.cache)) rest
    unfolding given
    kept-IsBalanced h = record {
      counted = omega (arith, inv.counted, Perm-length held);
      bounded = omega arith;
      distinct = Perm.nodup moved inv.distinct;
      positive = λ y m. inv.positive y ((Perm.mem_iff moved).1 m);
    }

    deleted-IsBalanced : IsBalanced (given p.cache) rest
    unfolding given
    deleted-IsBalanced = record {
      counted = omega (arith, inv.counted, Perm-length held);
      bounded = inv.bounded;
      distinct = (Nodup-cons.0 (Perm.nodup moved inv.distinct)).1;
      positive = λ y m. inv.positive y ((Perm.mem_iff moved).1 (mem-cons_of_mem x m));
    }

  -- Free of a block that a client holds: no assert fails, the count of used blocks goes down by one,
  -- and the block is either kept for the next Create or given to operator delete; it is kept exactly
  -- while the cache has room. The pool keeps its invariant with that block no longer out.
  pub free-IsBalanced :
      (x : ℕ) (rest : List ℕ)
      → Perm out (x ∷ rest)
      → (p' : DynamicMemoryPool) × (deleted : ℕ) × (free x p ≡ some (deleted, p'))
        × (get_used_count p' + 1 ≡ get_used_count p)
        × (((length p.cache < p.max_cache) × (deleted ≡ 0) × (p'.cache ≡ x ∷ p.cache))
            ⊎ ((length p.cache ≡ p.max_cache) × (deleted ≡ x) × (p'.cache ≡ p.cache)))
        × IsBalanced p' rest
  unfolding given get_used_count
  free-IsBalanced x rest held = elim (dec_lt (length p.cache) p.max_cache) [
    | yes h ↦ (
      given x rest held (x ∷ p.cache),
      0,
      free-kept x rest held h,
      omega (arith, used-positive x rest held),
      inl (h, refl, refl),
      kept-IsBalanced x rest held h,
    )
    | no h ↦
        let e : length p.cache ≡ p.max_cache = omega (arith, inv.bounded) in
        (
          given x rest held p.cache,
          x,
          free-deleted x rest held e,
          omega (arith, used-positive x rest held),
          inr (e, refl, refl),
          deleted-IsBalanced x rest held,
        )
  ]
