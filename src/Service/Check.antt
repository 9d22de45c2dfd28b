-- ===== src/Service/Check.antt =====
-- Netlib/TcpService.cpp, checkStatus: which clients are timed out, freed or left alone.
use iocp_netlib.Base.{
  ℕ, ◌+◌, ◌*◌, ◌^◌, ◌≤◌, ◌<◌, ◌≡◌, refl, sym, ap, subst, inl, inr, true, false, not, ◌&&◌, Option,
  none, some, List, [], ◌∷◌, ◌++◌, arith, Bool-cases, List-cases,
}
use iocp_netlib.DynamicPool.{DynamicMemoryPool}
use iocp_netlib.DynamicPool
use iocp_netlib.Client.{
  TcpClient, Pools, IoContext, op_timeout, is_active, is_accepting, increase_io_count, alloc_block,
  release_block,
}
use iocp_netlib.Client.Post.{request}
use iocp_netlib.Client.Life.Posted.{post_special_taken}
use iocp_netlib.Service.{
  Entry, TcpService, view, check_loop, check_status, is_timed_out, timeout_ms, set_timeout,
}

-- There are contexts for time-outs: the pool exists, and no address in its cache is null.
abbrev pub AllPositive : List ℕ → Type 0
AllPositive [] = Unit {0}
AllPositive (x ∷ xs) = (0 < x) × AllPositive xs

abbrev pub Ready : Option DynamicMemoryPool → Type 0
Ready none = ⊥
Ready (some d) = AllPositive d.cache

alloc-Ready :
    (fresh : ℕ) (o : Option DynamicMemoryPool)
    → 0 < fresh
    → Ready o
    → (0 < (alloc_block fresh o).0) × Ready (alloc_block fresh o).1
unfolding alloc_block DynamicPool.create
alloc-Ready fresh none pos r = absurd r
alloc-Ready fresh (some d) pos r = elim (List-cases d.cache) [
  | inl e ↦ rw e (pos, ground arith)
  | inr (x, rest, e) ↦
      let q : AllPositive (x ∷ rest) = subst AllPositive e r in rw e (q.0, ground (arith, q))
]

-- What checkStatus does with the nodes of the map, for this time-out and tick count.
pub data Checked (timeout_sec now : ℕ) : List Entry → List Entry → Type 0 where
  done : Checked timeout_sec now [] []
  skips :
      {e : Entry} {es l : List Entry}
      → is_accepting e.client ≡ true
      → Checked timeout_sec now es l
      → Checked timeout_sec now (e ∷ es) (e ∷ l)
  frees :
      {e : Entry} {es l : List Entry}
      → is_accepting e.client ≡ false
      → e.client.marked_destroy ≡ true
      → is_active e.client ≡ false
      → Checked timeout_sec now es l
      → Checked timeout_sec now (e ∷ es) l
  leaves :
      {e : Entry} {es l : List Entry}
      → is_accepting e.client ≡ false
      → (e.client.marked_destroy && not (is_active e.client)) ≡ false
      → now ≤ e.client.last_tick_time + timeout_sec * 1000
      → Checked timeout_sec now es l
      → Checked timeout_sec now (e ∷ es) (e ∷ l)
  times_out :
      {e : Entry} {es l : List Entry} (x : IoContext)
      → is_accepting e.client ≡ false
      → (e.client.marked_destroy && not (is_active e.client)) ≡ false
      → e.client.last_tick_time + timeout_sec * 1000 < now
      → x.operation_type ≡ op_timeout
      → Checked timeout_sec now es l
      → Checked timeout_sec now
          (e ∷ es)
          (record e { client = increase_io_count e.client; io = e.io ++ (x ∷ []) } ∷ l)

module _ (timeout_sec now : ℕ) (fits : timeout_sec * 1000 < 2 ^ 31) (c : TcpClient) where
  in_time : is_timed_out timeout_sec now c ≡ false → now ≤ c.last_tick_time + timeout_sec * 1000
  unfolding is_timed_out timeout_ms
  in_time h = ground (arith, h)

  too_late : is_timed_out timeout_sec now c ≡ true → c.last_tick_time + timeout_sec * 1000 < now
  unfolding is_timed_out timeout_ms
  too_late h = ground (arith, h)

timed_out :
    (fresh : ℕ → ℕ)
    → ((key : ℕ) → 0 < fresh key)
    → (e : Entry) (p : Pools) → Ready p.exception_contexts
    → (x : IoContext) × (x.operation_type ≡ op_timeout)
      × (set_timeout (fresh e.key) true (view p e)
          ≡ request x (record (view p e) {
            client = increase_io_count e.client;
            pools = record p {
              exception_contexts = (alloc_block (fresh e.key) p.exception_contexts).1;
            };
          }))
unfolding set_timeout
timed_out fresh positive e p r =
    post_special_taken (view p e) op_timeout (fresh e.key)
      (alloc-Ready (fresh e.key) p.exception_contexts (positive e.key) r).0

module _ (timeout_sec now : ℕ) (fits : timeout_sec * 1000 < 2 ^ 31) (fresh : ℕ → ℕ)
    (positive : (key : ℕ) → 0 < fresh key) where
  abbrev run : List Entry → Pools → Option (List Entry × Pools)
  run = check_loop timeout_sec now fresh (λ _. true)

  abbrev Good : List Entry → Option (List Entry × Pools) → Type 0
  Good es r = (l : List Entry) × (p : Pools) × (r ≡ some (l, p)) × Checked timeout_sec now es l

  module _ (e : Entry) (es : List Entry) (p : Pools) where
    run_skips : is_accepting e.client ≡ true → Good es (run es p) → Good (e ∷ es) (run (e ∷ es) p)
    unfolding check_loop
    run_skips a (l, p', eq, ok) = (e ∷ l, p', rw (a, eq) refl, skips a ok)

    run_frees :
        is_accepting e.client ≡ false
        → is_timed_out timeout_sec now e.client ≡ false
        → (e.client.marked_destroy && not (is_active e.client)) ≡ true
        → Good es (run es (record p { clients = release_block e.address p.clients }))
        → Good (e ∷ es) (run (e ∷ es) p)
    unfolding check_loop
    run_frees a t m (l, p', eq, ok) =
        (l, p', rw (a, t, m, eq) refl, frees a (ground (arith, m)) (ground (arith, m)) ok)

    run_leaves :
        is_accepting e.client ≡ false
        → is_timed_out timeout_sec now e.client ≡ false
        → (e.client.marked_destroy && not (is_active e.client)) ≡ false
        → Good es (run es p)
        → Good (e ∷ es) (run (e ∷ es) p)
    unfolding check_loop
    run_leaves a t m (l, p', eq, ok) = (
      e ∷ l,
      p',
      rw (a, t, m, eq, t) refl,
      leaves a m (in_time timeout_sec now fits e.client t) ok,
    )

    module _ (x : IoContext) (special : Pools) (o : x.operation_type ≡ op_timeout)
        (timed : set_timeout (fresh e.key) true (view p e)
          ≡ request x (record (view p e) { client = increase_io_count e.client; pools = special }))
        (a : is_accepting e.client ≡ false) (t : is_timed_out timeout_sec now e.client ≡ true) where
      run_times_out :
          (e.client.marked_destroy && not (is_active e.client)) ≡ false
          → Good es (run es special)
          → Good (e ∷ es) (run (e ∷ es) p)
      unfolding check_loop is_active
      run_times_out m (l, p', eq, ok) = (
        record e { client = increase_io_count e.client; io = e.io ++ (x ∷ []) } ∷ l,
        p',
        rw (a, t, timed, m, eq, t, timed) refl,
        times_out x a m (too_late timeout_sec now fits e.client t) o ok,
      )

      run_frees_timed :
          (e.client.marked_destroy && not (is_active e.client)) ≡ true
          → Good es (run es (record special { clients = release_block e.address special.clients }))
          → Good (e ∷ es) (run (e ∷ es) p)
      unfolding check_loop is_active
      run_frees_timed m (l, p', eq, ok) =
          (l, p', rw (a, t, timed, m, eq) refl, frees a (ground (arith, m)) (ground (arith, m)) ok)

  check_all : (es : List Entry) (p : Pools) → Ready p.exception_contexts → Good es (run es p)
  unfolding check_loop
  check_all [] p r = ([], p, refl, done)
  check_all (e ∷ es) p r = elim (Bool-cases (is_accepting e.client)) [
    | inl a ↦ run_skips e es p a (check_all es p r)
    | inr a ↦ elim (Bool-cases (e.client.marked_destroy && not (is_active e.client))) [
      | inl m ↦ elim (Bool-cases (is_timed_out timeout_sec now e.client)) [
        | inl t ↦
            let (x, o, timed) = timed_out fresh positive e p r in
            run_frees_timed e es p x _ o timed a t m
              (check_all es _ (alloc-Ready (fresh e.key) p.exception_contexts (positive e.key) r).1)
        | inr t ↦ run_frees e es p a t m (check_all es _ r)
      ]
      | inr m ↦ elim (Bool-cases (is_timed_out timeout_sec now e.client)) [
        | inl t ↦
            let (x, o, timed) = timed_out fresh positive e p r in
            run_times_out e es p x _ o timed a t m
              (check_all es _ (alloc-Ready (fresh e.key) p.exception_contexts (positive e.key) r).1)
        | inr t ↦ run_leaves e es p a t m (check_all es p r)
      ]
    ]
  ]

-- checkStatus, when mClientTimeoutSec * 1000 fits in an int, there are contexts for time-outs and the
-- system takes each: the loop never stands
-- on an erased node, and for every node of the map in order: one that waits for an accept is skipped;
-- a marked client without references is freed; of the others, exactly those that have been silent for
-- longer than the time-out get a time-out request, and nothing else of a client changes.
pub check_status-Checked :
    (v : TcpService) (now : ℕ) (fresh : ℕ → ℕ)
    → v.client_timeout_sec * 1000 < 2 ^ 31
    → ((key : ℕ) → 0 < fresh key)
    → Ready v.pools.exception_contexts
    → (v' : TcpService) × (check_status now fresh (λ _. true) v ≡ some v')
      × Checked v.client_timeout_sec now v.clients v'.clients
unfolding check_status
check_status-Checked v now fresh fits positive r =
    let (l, p, eq, ok) =
      check_all v.client_timeout_sec now fits fresh positive v.clients v.pools r in
    (record v { clients = l; pools = p }, rw (eq, check_status) refl, ok)

check_status_run :
    (v : TcpService) (now : ℕ) (fresh : ℕ → ℕ) (es l : List Entry) (p : Pools)
    → v.clients ≡ es
    → check_loop v.client_timeout_sec now fresh (λ _. true) es v.pools ≡ some (l, p)
    → check_status now fresh (λ _. true) v ≡ some (record v { clients = l; pools = p })
unfolding check_status
check_status_run v now fresh es l p one run =
    let q : check_loop v.client_timeout_sec now fresh (λ _. true) v.clients v.pools ≡ some (l, p) =
      subst (λ xs. check_loop v.client_timeout_sec now fresh (λ _. true) xs v.pools ≡ some (l, p))
        (sym one) run in
    rw (q, check_status) refl

loop_posted :
    (timeout_sec now : ℕ) (fresh : ℕ → ℕ)
    → ((key : ℕ) → 0 < fresh key)
    → (e : Entry) (p : Pools) (x : IoContext) (special : Pools)
    → set_timeout (fresh e.key) true (view p e)
      ≡ request x (record (view p e) { client = increase_io_count e.client; pools = special })
    → is_accepting e.client ≡ false
    → is_timed_out timeout_sec now e.client ≡ true
    → (e.client.marked_destroy && not (is_active e.client)) ≡ true
    → (p' : Pools) × (check_loop timeout_sec now fresh (λ _. true) (e ∷ []) p ≡ some ([], p'))
unfolding check_loop is_active
loop_posted timeout_sec now fresh positive e p x special timed a t m =
    (record special { clients = release_block e.address special.clients }, rw (a, t, timed, m) refl)

-- checkStatus on the only client of the map, when it is marked, nobody holds it and it has been silent
-- for longer than the time-out, and the system takes the time-out request: the request is in flight,
-- and the client is freed in the same round.
pub check_status_posted :
    (v : TcpService) (e : Entry) (now : ℕ) (fresh : ℕ → ℕ)
    → v.clients ≡ e ∷ []
    → ((key : ℕ) → 0 < fresh key)
    → Ready v.pools.exception_contexts
    → is_accepting e.client ≡ false
    → is_timed_out v.client_timeout_sec now e.client ≡ true
    → (e.client.marked_destroy && not (is_active e.client)) ≡ true
    → (v' : TcpService) × (x : IoContext) × ((set_timeout (fresh e.key) true (view v.pools e)).io
        ≡ e.io ++ (x ∷ []))
      × (check_status now fresh (λ _. true) v ≡ some v')
      × (v'.clients ≡ [])
check_status_posted v e now fresh one positive r a t m =
    let (x, o, timed) = timed_out fresh positive e v.pools r in
    let last = loop_posted v.client_timeout_sec now fresh positive e v.pools x _ timed a t m in
    (
      record v { clients = []; pools = last.0 },
      x,
      ap (λ s. s.io) timed,
      check_status_run v now fresh (e ∷ []) [] last.0 one last.1,
      refl,
    )
