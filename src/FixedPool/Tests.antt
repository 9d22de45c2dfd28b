-- ===== src/FixedPool/Tests.antt =====
-- include/tool/FixedMemoryPool.h: runs, and the theorems at a pool of three blocks.
use mathlib.Core.List.{Mem, Nodup, mem-cons_self}
use mathlib.Core.List.Perm
use iocp_netlib.Base.{length, ◌↔◌, ℕ, ◌+◌, ◌*◌, ◌≤◌, ◌<◌, ◌≡◌, refl, some, [], ◌∷◌, arith}
use iocp_netlib.Memory.{Memory, store}
use iocp_netlib.FixedPool.{FixedMemoryPool, create, alloc_raw, free_raw, create_object}
use iocp_netlib.FixedPool.Clients.{
  System, Reach, here, next, takes, gives_back, writes, Reach-clients,
}

abbrev blank : Memory
blank = record { word = λ _. 0; byte = λ _. 0 }

-- The blocks 1000, 1024 and 1048; a client holds the second one.
abbrev linked : Memory
linked = store (store blank 1000 1048) 1048 0

abbrev three : FixedMemoryPool
three = record { pool = 1000; free_list = 1000; elem_size = 24; capacity = 3; free_count = 2 }

create_three :
    create (λ _. 1000) 20 3 blank
    ≡ some (
      record { pool = 1000; free_list = 1000; elem_size = 24; capacity = 3; free_count = 3 },
      store (store (store blank 1000 1024) 1024 1048) 1048 0,
    )
unfolding create
create_three = refl

alloc_raw-three : (alloc_raw linked three).0 ≡ 1000
unfolding alloc_raw
alloc_raw-three = refl

create_object_too_large : create_object linked three 25 ≡ (0, three)
unfolding create_object
create_object_too_large = refl

-- The pool that create_three makes; one block is taken, written and given back, and two are held.
abbrev new : System
new = record {
  mem = store (store (store blank 1000 1024) 1024 1048) 1048 0;
  pool = record { pool = 1000; free_list = 1000; elem_size = 24; capacity = 3; free_count = 3 };
  held = [];
}

abbrev two_held : System
two_held = record {
  mem = store (store new.mem 1000 7) 1000 1024;
  pool = record { pool = 1000; free_list = 1048; elem_size = 24; capacity = 3; free_count = 1 };
  held = 1024 ∷ 1000 ∷ [];
}

new_reaches-two_held : Reach new two_held
unfolding alloc_raw free_raw
new_reaches-two_held =
    next
      (next
        (next
          (next (next here (takes (omega arith)))
            (writes 1000 1000 7 mem-cons_self (omega arith) (omega arith)))
          (gives_back 1000 [] (Perm.refl _)))
        (takes (omega arith)))
      (takes (omega arith))

Reach-clients_example :
    (new.pool.pool ≡ 1000)
    × (20 ≤ 24)
    × Nodup two_held.held
    × ((x : ℕ) → Mem x two_held.held → (1000 ≤ x) × (x + 24 ≤ 1000 + 3 * 24))
    × ((x y : ℕ) → Mem x two_held.held → Mem y two_held.held → x < y → x + 24 ≤ y)
    × (length two_held.held + two_held.pool.free_count ≡ 3)
    × (((alloc_raw two_held.mem two_held.pool).0 ≡ 0) ↔ (length two_held.held ≡ 3))
Reach-clients_example =
    Reach-clients (λ _. 1000) 20 3 blank new.mem new.pool (omega arith) (omega arith) (omega arith)
      (omega arith) (λ _. omega arith) create_three (omega arith) new_reaches-two_held
