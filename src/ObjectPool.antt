-- ===== src/ObjectPool.antt =====
-- include/tool/FixedObjectPool.h: objects that threads take and give back. m_freeList is a list from its
-- back, and an object is its address.
pub mod Shared
mod Tests
use iocp_netlib.Base.{ℕ, ◌==◌, Bool, Option, none, some, List, [], ◌∷◌, ◌++◌, length, if◌then◌else◌}
use iocp_netlib.Semaphore.{Semaphore}
use iocp_netlib.Semaphore

pub record ObjectPool : Type 0 where
  pub free_list : List ℕ
  pub sem : Semaphore

push_all : List ℕ → List ℕ → List ℕ
push_all free_list [] = free_list
push_all free_list (obj ∷ objs) = push_all (obj ∷ free_list) objs

-- The constructor, with the objects that operator new gives.
unfoldable pub construct : Bool → List ℕ → ObjectPool
unfolding push_all
construct granted objs = record {
  free_list = push_all [] objs;
  sem = Semaphore.create granted (length objs);
}

-- What Acquire answers; `undefined` is back() of an empty vector.
pub data Acquired : Type 0 where
  no_object : Acquired
  object : ℕ → Acquired
  undefined : Acquired

-- The part of Acquire under the lock.
unfoldable pub take_back : ObjectPool → Acquired × ObjectPool
take_back p = elim p.free_list [
  | [] ↦ (undefined, p)
  | obj ∷ rest ↦ (object obj, record p { free_list = rest })
]

unfoldable pub acquire : ObjectPool → Acquired × ObjectPool
unfolding take_back
acquire p =
    let (passed, sem) = Semaphore.wait p.sem in
    if passed then take_back (record p { sem = sem }) else (no_object, record p { sem = sem })

unfoldable pub release : ℕ → ObjectPool → ObjectPool
release obj p =
    if obj == 0 then p else (record p { free_list = obj ∷ p.free_list; sem = Semaphore.post p.sem })

unfoldable pub free_count : ObjectPool → ℕ
free_count p = length p.free_list

-- The destructor of FixedPoolObject gives back what its constructor took.
unfoldable pub drop_guard : Acquired → ObjectPool → ObjectPool
drop_guard (object obj) p = release obj p
drop_guard _ p = p
