-- ===== src/ObjectPool/Shared.antt =====
-- include/tool/FixedObjectPool.h: threads that share a pool, in any interleaving. Acquire waits for the
-- semaphore and then takes the lock, so other threads may run in between.
use mathlib.Core.List.{Mem, Perm, perm_middle, mem-cons_self}
use mathlib.Core.List.Perm
use iocp_netlib.Base.{
  ℕ, ◌+◌, ◌-◌, ◌≤◌, ◌<◌, ◌≡◌, refl, sym, ap, subst, ◌∙◌, ◌≢◌, true, some, List, [], ◌∷◌, ◌++◌,
  arith, length, length-append, append-nil, Perm-length,
}
use iocp_netlib.Semaphore.{max_count}
use iocp_netlib.Semaphore
use iocp_netlib.ObjectPool.{ObjectPool, object, push_all, construct, take_back, release}

-- The pool, the number of threads that have passed the wait and not yet taken the lock, and the
-- objects that threads hold.
pub record System : Type 0 where
  pub pool : ObjectPool
  pub passed : ℕ
  pub held : List ℕ

pub data Step (s : System) : System → Type 0 where
  passes :
      (Semaphore.wait s.pool.sem).0 ≡ true
      → Step s (record s {
        pool = record s.pool { sem = (Semaphore.wait s.pool.sem).1 };
        passed = s.passed + 1;
      })
  takes :
      (obj : ℕ)
      → 0 < s.passed
      → (take_back s.pool).0 ≡ object obj
      → Step s (record { pool = (take_back s.pool).1; passed = s.passed - 1; held = obj ∷ s.held })
  gives_back :
      (obj : ℕ) (rest : List ℕ)
      → Perm s.held (obj ∷ rest)
      → Step s (record s { pool = release obj s.pool; held = rest })

pub data Reach (s : System) : System → Type 0 where
  here : Reach s s
  next : {t u : System} → Reach s t → Step t u → Reach s u

-- The semaphore and the threads past it account for the free objects, and no object is lost or
-- handed out twice.
record IsShared (objs : List ℕ) (s : System) : Type 0 where
  count : ℕ
  signalled : s.pool.sem ≡ some count
  balance : count + s.passed ≡ length s.pool.free_list
  whole : Perm (s.pool.free_list ++ s.held) objs

module _ {objs : List ℕ} {s : System} (few : length objs ≤ max_count) (v : IsShared objs s) where
  passes-IsShared :
      (Semaphore.wait s.pool.sem).0 ≡ true
      → IsShared objs (record s {
        pool = record s.pool { sem = (Semaphore.wait s.pool.sem).1 };
        passed = s.passed + 1;
      })
  unfolding Semaphore.wait
  passes-IsShared ok = record {
    count = v.count - 1;
    signalled = ground (arith, v.signalled);
    balance = ground (arith, v.signalled, v.balance);
    whole = v.whole;
  }

  -- A thread that has passed the wait finds an object.
  take_back_passed :
      0 < s.passed
      → (obj : ℕ) × (rest : List ℕ) × (s.pool.free_list ≡ obj ∷ rest)
        × (take_back s.pool ≡ (object obj, record s.pool { free_list = rest }))
  unfolding take_back
  take_back_passed h = of s.pool.free_list refl
    where
      of :
          (l : List ℕ)
          → s.pool.free_list ≡ l
          → (obj : ℕ) × (rest : List ℕ) × (s.pool.free_list ≡ obj ∷ rest)
            × (take_back s.pool ≡ (object obj, record s.pool { free_list = rest }))
      of [] e = absurd (omega (arith, ap length e, v.balance))
      of (obj ∷ rest) e = (obj, rest, e, rw e refl)

  takes-IsShared :
      (obj : ℕ)
      → 0 < s.passed
      → (take_back s.pool).0 ≡ object obj
      → IsShared objs
          (record { pool = (take_back s.pool).1; passed = s.passed - 1; held = obj ∷ s.held })
  takes-IsShared obj h got =
      let (obj', rest, e, run) = take_back_passed h in
      let same : obj' ≡ obj = ground (arith, got, run) in
      subst (λ r. IsShared objs (record { pool = r.1; passed = s.passed - 1; held = obj ∷ s.held }))
        (sym run)
        (record {
          count = v.count;
          signalled = v.signalled;
          balance = ground (arith, e, v.balance);
          whole = Perm.trans (perm_middle rest s.held) (
              subst (λ l. Perm l objs)
                (ap (λ l. l ++ s.held) e ∙ ap (λ o. o ∷ (rest ++ s.held)) same) v.whole);
        })

  module _ (obj : ℕ) (rest : List ℕ) (p : Perm s.held (obj ∷ rest)) where
    room : v.count < max_count
    room = omega (
      arith,
      v.balance,
      few,
      Perm-length p,
      Perm-length v.whole,
      length-append s.pool.free_list s.held,
    )

    released :
        obj ≢ 0
        → release obj s.pool
          ≡ record { free_list = obj ∷ s.pool.free_list; sem = some (v.count + 1) }
    unfolding release Semaphore.post
    released ne = ground (arith, v.signalled, room)

    moved : Perm (s.pool.free_list ++ s.held) (obj ∷ (s.pool.free_list ++ rest))
    moved = Perm.trans (Perm.append_left s.pool.free_list p) (perm_middle s.pool.free_list rest)

    gives_back-IsShared :
        ((x : ℕ) → Mem x objs → x ≢ 0)
        → IsShared objs (record s { pool = release obj s.pool; held = rest })
    gives_back-IsShared real =
        let ne : obj ≢ 0 =
          real obj ((Perm.mem_iff (Perm.trans (Perm.symm moved) v.whole)).0 mem-cons_self) in
        subst (λ q. IsShared objs (record s { pool = q; held = rest })) (sym (released ne))
          (record {
            count = v.count + 1;
            signalled = refl;
            balance = omega (arith, v.balance);
            whole = Perm.trans (Perm.symm moved) v.whole;
          })

module _ {objs : List ℕ} (few : length objs ≤ max_count) (real : (x : ℕ) → Mem x objs → x ≢ 0) where
  Step-IsShared : {s t : System} → IsShared objs s → Step s t → IsShared objs t
  Step-IsShared v (passes ok) = passes-IsShared few v ok
  Step-IsShared v (takes obj h got) = takes-IsShared few v obj h got
  Step-IsShared v (gives_back obj rest p) = gives_back-IsShared few v obj rest p real

  Reach-IsShared : {s t : System} → IsShared objs s → Reach s t → IsShared objs t
  Reach-IsShared v here = v
  Reach-IsShared v (next r st) = Step-IsShared (Reach-IsShared v r) st

push_all-Perm : (free_list objs : List ℕ) → Perm (push_all free_list objs) (free_list ++ objs)
unfolding push_all
push_all-Perm free_list [] = rw append-nil (Perm.refl _)
push_all-Perm free_list (obj ∷ objs) =
    Perm.trans (push_all-Perm (obj ∷ free_list) objs) (Perm.symm (perm_middle free_list objs))

abbrev pub started : List ℕ → System
started objs = record { pool = construct true objs; passed = 0; held = [] }

started-IsShared : (objs : List ℕ) → IsShared objs (started objs)
unfolding construct Semaphore.create
started-IsShared objs = record {
  count = length objs;
  signalled = refl;
  balance = omega (arith, Perm-length (push_all-Perm [] objs));
  whole = rw append-nil (push_all-Perm [] objs);
}

-- From a pool of at most 0x7fffffff objects, none of them null, in any interleaving of threads that
-- Acquire (its wait and its part under the lock apart) and give back what they hold: the free objects
-- and those that threads hold are together the objects of the pool, each once; a thread that has
-- passed its wait gets an object, so that back() is never called on an empty vector; and while some
-- object is neither held nor promised to a thread past its wait, the wait of Acquire succeeds.
pub Reach-shared :
    (objs : List ℕ) {t : System}
    → length objs ≤ max_count
    → ((x : ℕ) → Mem x objs → x ≢ 0)
    → Reach (started objs) t
    → Perm (t.pool.free_list ++ t.held) objs
      × (0 < t.passed
          → (obj : ℕ) × (rest : List ℕ) × (t.pool.free_list ≡ obj ∷ rest)
            × (take_back t.pool ≡ (object obj, record t.pool { free_list = rest })))
      × (length t.held + t.passed < length objs → (Semaphore.wait t.pool.sem).0 ≡ true)
unfolding Semaphore.wait
Reach-shared objs {t} few real r =
    let v : IsShared objs t = Reach-IsShared few real (started-IsShared objs) r in
    (
      v.whole,
      take_back_passed few v,
      λ left. ground (
        arith,
        v.signalled,
        v.balance,
        Perm-length v.whole,
        length-append t.pool.free_list t.held,
      ),
    )
