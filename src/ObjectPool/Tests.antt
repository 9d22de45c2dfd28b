-- ===== src/ObjectPool/Tests.antt =====
-- include/tool/FixedObjectPool.h: runs, and the theorem on two objects of which a thread holds one.
use mathlib.Core.List.{Mem, Perm, mem-cons, not-mem-nil}
use mathlib.Core.HLevel.{⊥_prop}
use mathlib.Core.Logic.Or
use iocp_netlib.Base.{ℕ, ◌+◌, ◌<◌, ◌≡◌, refl, ◌≢◌, true, some, List, [], ◌∷◌, ◌++◌, arith, length}
use iocp_netlib.Semaphore
use iocp_netlib.ObjectPool.{
  object, no_object, construct, push_all, take_back, acquire, release, drop_guard, free_count,
}
use iocp_netlib.ObjectPool.Shared.{System, Reach, here, next, passes, takes, started, Reach-shared}

abbrev two : List ℕ
two = 1000 ∷ 2000 ∷ []

acquire-construct : (acquire (construct true two)).0 ≡ object 2000
unfolding acquire construct push_all take_back Semaphore.create Semaphore.wait
acquire-construct = refl

acquire-construct_none : (acquire (construct true [])).0 ≡ no_object
unfolding acquire construct push_all take_back Semaphore.create Semaphore.wait
acquire-construct_none = refl

-- The guard gives back what it took.
guarded :
    free_count (drop_guard (acquire (construct true two)).0 (acquire (construct true two)).1) ≡ 2
unfolding free_count drop_guard release acquire construct push_all take_back Semaphore.create
    Semaphore.wait Semaphore.post
guarded = refl

abbrev one_held : System
one_held = record {
  pool = record { free_list = 1000 ∷ []; sem = some 1 };
  passed = 0;
  held = 2000 ∷ [];
}

one_held-Reach : Reach (started two) one_held
unfolding construct push_all take_back Semaphore.create Semaphore.wait
one_held-Reach = next (next here (passes refl)) (takes 2000 (omega arith) refl)

two_real : (x : ℕ) → Mem x two → x ≢ 0
two_real x m e =
    Or.elim ⊥_prop (mem-cons.0 m) (λ q. omega arith)
      (λ m'. Or.elim ⊥_prop (mem-cons.0 m') (λ q. omega arith) not-mem-nil)

Reach-shared_example :
    Perm (one_held.pool.free_list ++ one_held.held) two
    × (0 < one_held.passed
        → (obj : ℕ) × (rest : List ℕ) × (one_held.pool.free_list ≡ obj ∷ rest)
          × (take_back one_held.pool ≡ (object obj, record one_held.pool { free_list = rest })))
    × (length one_held.held + one_held.passed < length two
        → (Semaphore.wait one_held.pool.sem).0 ≡ true)
Reach-shared_example = Reach-shared two (omega arith) two_real one_held-Reach
