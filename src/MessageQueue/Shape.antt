-- ===== src/MessageQueue/Shape.antt =====
-- Baselib/MessageQueue.cpp: the sizes of the queue's pool, which no call changes.
use iocp_netlib.Base.{ℕ, ◌≡◌, refl, sym, ap, ◌∙◌, Bool, Option, none, some, List, [], ◌∷◌, arith}
use iocp_netlib.Memory.{Memory}
use iocp_netlib.FixedPool.{FixedMemoryPool}
use iocp_netlib.FixedPool.Shape.{sizes, sizes-alloc_raw, sizes-free_raw}
use iocp_netlib.MessageQueue.{MessageQueue, push, pop, clear, release, release_all}

abbrev pub shape_of : Option FixedMemoryPool → Option (ℕ × ℕ × ℕ)
shape_of none = none
shape_of (some p) = some (sizes p)

abbrev pub shape : MessageQueue → Option (ℕ × ℕ × ℕ)
shape q = shape_of q.pool

shape-release :
    (buf : ℕ) (pool : Option FixedMemoryPool) (queue : List ℕ) (mem : Memory)
    → shape (release buf (record { queue = queue; pool = pool; mem = mem })) ≡ shape_of pool
unfolding release
shape-release buf none queue mem = refl
shape-release buf (some p) queue mem = ap some (sizes-free_raw mem p buf)

shape-release_all : (bufs : List ℕ) (q : MessageQueue) → shape (release_all bufs q) ≡ shape q
unfolding release_all
shape-release_all [] q = refl
shape-release_all (buf ∷ rest) q =
    shape-release_all rest (release buf (record q { queue = rest }))
    ∙ shape-release buf q.pool rest q.mem

pub shape-clear : (q : MessageQueue) → shape (clear q) ≡ shape q
unfolding clear
shape-clear q = shape-release_all q.queue q

shape-pop_from :
    (queue : List ℕ) (pool : Option FixedMemoryPool) (mem : Memory)
    → shape (pop (record { queue = queue; pool = pool; mem = mem })).1 ≡ shape_of pool
unfolding pop
shape-pop_from [] pool mem = refl
shape-pop_from (buf ∷ rest) pool mem = shape-release buf pool rest mem

pub shape-pop : (q : MessageQueue) → shape (pop q).1 ≡ shape q
shape-pop q = shape-pop_from q.queue q.pool q.mem

-- What Push leaves, if it returns.
abbrev pushed_shape : Option (Bool × MessageQueue) → Option (ℕ × ℕ × ℕ)
pushed_shape none = none
pushed_shape (some (ok, q)) = shape q

pushed_shape-push :
    (src : List ℕ) (pool : Option FixedMemoryPool) (queue : List ℕ) (mem : Memory)
    → pushed_shape (push src (record { queue = queue; pool = pool; mem = mem })) ≡ shape_of pool
unfolding push
pushed_shape-push src none queue mem = refl
pushed_shape-push src (some p) queue mem = ground (arith, sizes-alloc_raw mem p)

pub shape-push :
    (src : List ℕ) (q : MessageQueue) {ok : Bool} {q' : MessageQueue}
    → push src q ≡ some (ok, q')
    → shape q' ≡ shape q
shape-push src q e = sym (ap pushed_shape e) ∙ pushed_shape-push src q.pool q.queue q.mem
