-- ===== src/DynamicPool/Tests.antt =====
-- include/tool/DynamicMemoryPool.h: runs, and the clients of a small pool.
use mathlib.Core.Logic.Or
use mathlib.Core.HLevel.{⊥_prop}
use mathlib.Core.List.{Mem, Nodup, Perm, mem-cons, not-mem-nil}
use mathlib.Core.List.Perm
use iocp_netlib.Base.{ℕ, ◌≡◌, refl, ◌≢◌, inl, inr, none, some, List, [], ◌∷◌, ◌++◌, arith, length}
use iocp_netlib.FixedPool.{align_up}
use iocp_netlib.DynamicPool.{DynamicMemoryPool, construct, create, free, get_used_count, clear}
use iocp_netlib.DynamicPool.Heap.{System, Step, Reach, here, next, creates, frees, Reach-heap}

abbrev pool : DynamicMemoryPool
pool = record { cache = 100 ∷ []; elem_size = 24; max_cache = 2; used_count = 1 }

construct-none : construct 0 5 ≡ none
unfolding construct
construct-none = refl

create_cached : (create 300 pool).0 ≡ 100
unfolding create
create_cached = refl

-- One cached block at most: of two blocks that are given back, the first is kept and the second
-- deleted, and the next Create takes the one that was kept.
abbrev new : DynamicMemoryPool
new = record { cache = []; elem_size = 24; max_cache = 1; used_count = 0 }

abbrev one_held : System
one_held = record { pool = record new { used_count = 1 }; held = 300 ∷ []; live = 300 ∷ [] }

only_three : (x : ℕ) → x ≢ 300 → ¬ Mem x one_held.live
only_three x ne m = Or.elim ⊥_prop (mem-cons.0 m) (λ e. ne e) (λ r. not-mem-nil r)

construct-new : construct 20 1 ≡ some new
unfolding construct align_up
construct-new = refl

new_reaches-one_held : Reach (record { pool = new; held = []; live = [] }) one_held
unfolding create free
new_reaches-one_held =
    next
      (next
        (next
          (next (next here (creates 300 (omega arith) (λ m. not-mem-nil m) (omega arith)))
            (creates 400 (omega arith) (only_three 400 (omega arith)) (omega arith)))
          (frees 300 (400 ∷ []) 0 (record new { cache = 300 ∷ []; used_count = 1 }) (400 ∷ 300 ∷ [])
            (Perm.swap 300 400 []) refl (inl (refl, refl))))
        (frees 400 [] 400 (record new { cache = 300 ∷ [] }) (300 ∷ []) (Perm.refl _) refl
          (inr (omega arith, Perm.refl _))))
      (creates 500 (omega arith) (only_three 500 (omega arith)) (omega arith))

Reach-heap_example :
    (get_used_count one_held.pool ≡ length one_held.held)
    × ((x : ℕ) (rest : List ℕ)
        → Perm one_held.held (x ∷ rest)
        → (x ≢ 0) × ((t : System) × Step one_held t × (t.held ≡ rest)))
    × Nodup one_held.live
    × Perm one_held.live ((clear one_held.pool).0 ++ one_held.held)
Reach-heap_example = Reach-heap 20 1 new construct-new new_reaches-one_held
