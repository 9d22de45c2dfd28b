-- ===== src/PackageQueue/Handoff.antt =====
-- Baselib/PackageQueue.cpp: producers and consumers in any interleaving. Pop waits for the semaphore
-- and then takes the lock, so other threads may run in between.
use iocp_netlib.Base.{
  ℕ, ◌+◌, ◌-◌, ◌<◌, ◌≡◌, refl, sym, ap, ◌≢◌, true, some, List, [], ◌∷◌, ◌++◌, append_assoc, arith,
  length, length-append,
}
use iocp_netlib.Memory.{Memory}
use iocp_netlib.Semaphore.{Semaphore, max_count}
use iocp_netlib.Semaphore
use iocp_netlib.PackageQueue.{
  PackageQueue, pop_ok, pop_empty, push, take_front, alloc_write_packet, release,
}

-- The queue, the number of threads that have passed the wait and not yet taken the lock, and the
-- packets pushed and taken so far, oldest first.
pub record System : Type 0 where
  pub q : PackageQueue
  pub passed : ℕ
  pub pushed : List ℕ
  pub taken : List ℕ

pub data Step (s : System) : System → Type 0 where
  pushes :
      (buf : ℕ)
      → buf ≢ 0
      → length s.q.queue < max_count
      → Step s (record s { q = (push buf s.q).1; pushed = s.pushed ++ (buf ∷ []) })
  passes :
      (Semaphore.wait s.q.sem).0 ≡ true
      → Step s
          (record s { q = record s.q { sem = (Semaphore.wait s.q.sem).1 }; passed = s.passed + 1 })
  takes :
      (buf : ℕ) (q' : PackageQueue)
      → 0 < s.passed
      → take_front s.q ≡ (pop_ok, some buf, q')
      → Step s (record s { q = q'; passed = s.passed - 1; taken = s.taken ++ (buf ∷ []) })
  finds_empty :
      0 < s.passed
      → (take_front s.q).0 ≡ pop_empty
      → Step s (record s { q = (take_front s.q).2; passed = s.passed - 1 })
  allocates : Step s (record s { q = (alloc_write_packet s.q).1 })
  releases : (buf : ℕ) → Step s (record s { q = release buf s.q })
  writes : (mem : Memory) → Step s (record s { q = record s.q { mem = mem } })

pub data Reach (s : System) : System → Type 0 where
  here : Reach s s
  next : {t u : System} → Reach s t → Step t u → Reach s u

-- The semaphore and the threads past it account for the packets in the queue.
pub record IsCounted (s : System) : Type 0 where
  pub count : ℕ
  pub signalled : s.q.sem ≡ some count
  pub balance : count + s.passed ≡ length s.q.queue
  pub order : s.pushed ≡ s.taken ++ s.q.queue

module _ {s : System} (v : IsCounted s) where
  pushes-IsCounted :
      (buf : ℕ)
      → buf ≢ 0
      → length s.q.queue < max_count
      → IsCounted (record s { q = (push buf s.q).1; pushed = s.pushed ++ (buf ∷ []) })
  unfolding push Semaphore.post
  pushes-IsCounted buf ne room = record {
    count = v.count + 1;
    signalled = ground (arith, v.signalled, v.balance);
    balance = ground (arith, v.balance, length-append s.q.queue (buf ∷ []));
    order = ground (arith, v.order, append_assoc s.taken s.q.queue (buf ∷ []));
  }

  passes-IsCounted :
      (Semaphore.wait s.q.sem).0 ≡ true
      → IsCounted
          (record s { q = record s.q { sem = (Semaphore.wait s.q.sem).1 }; passed = s.passed + 1 })
  unfolding Semaphore.wait
  passes-IsCounted ok = record {
    count = v.count - 1;
    signalled = ground (arith, v.signalled);
    balance = ground (arith, v.signalled, v.balance);
    order = v.order;
  }

  -- A thread that has passed the wait finds a packet.
  take_front_passed :
      0 < s.passed
      → (buf : ℕ) × (rest : List ℕ) × (s.q.queue ≡ buf ∷ rest)
        × (take_front s.q ≡ (pop_ok, some buf, record s.q { queue = rest }))
  unfolding take_front
  take_front_passed h = of s.q.queue refl
    where
      of :
          (l : List ℕ)
          → s.q.queue ≡ l
          → (buf : ℕ) × (rest : List ℕ) × (s.q.queue ≡ buf ∷ rest)
            × (take_front s.q ≡ (pop_ok, some buf, record s.q { queue = rest }))
      of [] e = absurd (omega (arith, ap length e, v.balance))
      of (buf ∷ rest) e = (buf, rest, e, ground (arith, e))

  takes-IsCounted :
      (buf : ℕ) (q' : PackageQueue)
      → 0 < s.passed
      → take_front s.q ≡ (pop_ok, some buf, q')
      → IsCounted (record s { q = q'; passed = s.passed - 1; taken = s.taken ++ (buf ∷ []) })
  takes-IsCounted buf q' h e =
      let (buf', rest, e₁, e₂) = take_front_passed h in
      record {
        count = v.count;
        signalled = ground (arith, e, e₂, v.signalled);
        balance = ground (arith, e, e₁, e₂, v.balance);
        order = ground (arith, e, e₁, e₂, v.order, append_assoc s.taken (buf ∷ []) rest);
      }

Step-IsCounted : {s t : System} → IsCounted s → Step s t → IsCounted t
unfolding alloc_write_packet release
Step-IsCounted v (pushes buf ne room) = pushes-IsCounted v buf ne room
Step-IsCounted v (passes ok) = passes-IsCounted v ok
Step-IsCounted v (takes buf q' h e) = takes-IsCounted v buf q' h e
Step-IsCounted v (finds_empty h e) =
    let (buf, rest, _, e₂) = take_front_passed v h in absurd (ground (arith, e, e₂))
Step-IsCounted {s} v allocates = record {
  count = v.count;
  signalled = ground (arith, v.signalled);
  balance = ground (arith, v.balance);
  order = ground (arith, v.order);
}
Step-IsCounted {s} v (releases buf) = record {
  count = v.count;
  signalled = ground (arith, v.signalled);
  balance = ground (arith, v.balance);
  order = ground (arith, v.order);
}
Step-IsCounted v (writes mem) = record {
  count = v.count;
  signalled = v.signalled;
  balance = v.balance;
  order = v.order;
}

Reach-IsCounted : {s t : System} → IsCounted s → Reach s t → IsCounted t
Reach-IsCounted v here = v
Reach-IsCounted v (next r st) = Step-IsCounted (Reach-IsCounted v r) st

abbrev pub started : PackageQueue → System
started q = record { q = q; passed = 0; pushed = []; taken = [] }

-- From an empty queue with a fresh semaphore, in any interleaving of Push, Pop (its wait and its part
-- under the lock apart), allocation, writing and release, below 0x7fffffff packets: the packets taken
-- followed by those in the queue are the packets pushed, in order, and a Pop that has passed its wait
-- gets a packet, so that Pop never answers POP_EMPTY.
pub Reach-handoff :
    {q : PackageQueue} {t : System}
    → q.queue ≡ []
    → q.sem ≡ some 0
    → Reach (started q) t
    → (t.pushed ≡ t.taken ++ t.q.queue)
      × (0 < t.passed
          → (buf : ℕ) × (rest : List ℕ) × (t.q.queue ≡ buf ∷ rest)
            × (take_front t.q ≡ (pop_ok, some buf, record t.q { queue = rest })))
Reach-handoff {q} {t} e z r =
    let v : IsCounted t =
      Reach-IsCounted
        (record { count = 0; signalled = z; balance = ground (arith, e); order = sym e }) r in
    (v.order, take_front_passed v)
