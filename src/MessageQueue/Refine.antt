-- ===== src/MessageQueue/Refine.antt =====
-- Baselib/MessageQueue.cpp: the queue in memory is a bounded FIFO of messages.
use mathlib.Core.List.{Mem, mem-cons_self, mem-cons_of_mem, perm_append_singleton}
use mathlib.Core.List.Perm
use native.Mathlib.Decide.{dec_lt}
use iocp_netlib.Base.{
  ℕ, ◌+◌, ◌^◌, ◌≤◌, ◌<◌, ◌≡◌, refl, sym, ap, ap₂, subst, ◌∙◌, ◌≢◌, ◌⊎◌, inl, inr, true, false, some,
  List, [], ◌∷◌, ◌++◌, map, arith, length, ltb, ltb→lt, ltb→le, Bool-cases,
}
use iocp_netlib.Memory.{Memory, copy_bytes}
use iocp_netlib.FixedPool.{FixedMemoryPool, alloc_raw, free_raw}
use iocp_netlib.FixedPool.Laws.{IsPool, alloc_raw_lem}
use iocp_netlib.FixedPool.Writes.{store-IsPool, copy_bytes-IsPool, reorder-IsPool}
use iocp_netlib.Packet.{read_bytes}
use iocp_netlib.Packet.Laws.{read_bytes_cong, read-copy_bytes, copy_bytes_outside}
use iocp_netlib.MessageQueue.{MessageQueue, header_size, push, fill, room}

-- The message in the block at `buf`.
abbrev pub message : Memory → ℕ → List ℕ
message mem buf = read_bytes mem.byte (buf + header_size) (mem.word buf)

abbrev pub messages : MessageQueue → List (List ℕ)
messages q = map (message q.mem) q.queue

-- Each message ends within its block.
abbrev pub AllFit : Memory → ℕ → List ℕ → Type 0
AllFit mem size [] = Unit {0}
AllFit mem size (buf ∷ bufs) = (header_size + mem.word buf ≤ size) × AllFit mem size bufs

pub record IsQueue (q : MessageQueue) (p : FixedMemoryPool) (free : List ℕ) : Type 0 where
  pub has_pool : q.pool ≡ some p
  pub pool_inv : IsPool q.mem p free q.queue
  pub fit : AllFit q.mem p.elem_size q.queue
  pub sized : header_size ≤ p.elem_size
  pub small : p.elem_size < 2 ^ 64

-- Two blocks of this size do not overlap.
abbrev Apart : ℕ → ℕ → ℕ → Type 0
Apart size x y = (x < y → x + size ≤ y) × (y < x → y + size ≤ x) × (x ≢ y)

Apart-cases : (size x y : ℕ) → Apart size x y → (x + size ≤ y) ⊎ (y + size ≤ x)
Apart-cases size x y (below, above, ne) = elim (dec_lt x y) [
  | yes h ↦ inl (below h)
  | no h ↦ inr (above (omega (arith, ne)))
]

module _ (mem : Memory) (buf : ℕ) (src : List ℕ) (cap size : ℕ)
    (fits : header_size + length src ≤ size) where
  filled : Memory
  filled = fill mem buf src cap

  filled-word : (a : ℕ) → a ≢ buf → a ≢ buf + 8 → filled.word a ≡ mem.word a
  unfolding filled copy_bytes
  filled-word a ne ne' = ground arith

  filled-word_self : filled.word buf ≡ length src
  unfolding filled copy_bytes
  filled-word_self = ground arith

  message-filled_self : message filled buf ≡ src
  unfolding filled
  message-filled_self =
      ap (read_bytes (copy_bytes mem (buf + header_size) src).byte (buf + header_size))
        filled-word_self
      ∙ read-copy_bytes mem (buf + header_size) src

  module _ (y : ℕ) (apart : Apart size buf y) (fit : header_size + mem.word y ≤ size) where
    filled-word_apart : filled.word y ≡ mem.word y
    filled-word_apart =
        filled-word y (omega (arith, Apart-cases size buf y apart))
          (omega (arith, Apart-cases size buf y apart))

    message-filled_apart : message filled y ≡ message mem y
    unfolding filled
    message-filled_apart =
        ap (read_bytes filled.byte (y + header_size)) filled-word_apart
        ∙ read_bytes_cong filled.byte mem.byte (y + header_size) (mem.word y) (λ b lo hi.
          copy_bytes_outside mem (buf + header_size) src b
            (omega (arith, Apart-cases size buf y apart)))

  messages-filled :
      (ys : List ℕ)
      → ((y : ℕ) → Mem y ys → Apart size buf y)
      → AllFit mem size ys
      → (map (message filled) ys ≡ map (message mem) ys) × AllFit filled size ys
  messages-filled [] apart fit = (refl, tt)
  messages-filled (y ∷ ys) apart (fit, rest) =
      let (e, f) = messages-filled ys (λ z m. apart z (mem-cons_of_mem y m)) rest in
      (
        ap₂ ◌∷◌ (message-filled_apart y (apart y mem-cons_self) fit) e,
        (rw (filled-word_apart y (apart y mem-cons_self) fit) fit, f),
      )

AllFit-append :
    (mem : Memory) (size buf : ℕ) (bufs : List ℕ)
    → AllFit mem size bufs
    → header_size + mem.word buf ≤ size
    → AllFit mem size (bufs ++ (buf ∷ []))
AllFit-append mem size buf [] fit last = (last, tt)
AllFit-append mem size buf (x ∷ bufs) fit last = (fit.0, AllFit-append mem size buf bufs fit.1 last)

map-snoc : (f : ℕ → List ℕ) (xs : List ℕ) (x : ℕ) → map f (xs ++ (x ∷ [])) ≡ map f xs ++ (f x ∷ [])
map-snoc f [] x = refl
map-snoc f (y ∷ xs) x = ap (λ zs. f y ∷ zs) (map-snoc f xs x)

-- A pool keeps the size of its blocks.
elem_size-alloc_raw :
    (mem : Memory) (p : FixedMemoryPool) → (alloc_raw mem p).1.elem_size ≡ p.elem_size
unfolding alloc_raw
elem_size-alloc_raw mem p = ground arith

pub elem_size-free_raw :
    (mem : Memory) (p : FixedMemoryPool) (ptr : ℕ) → (free_raw mem p ptr).0.elem_size ≡ p.elem_size
unfolding free_raw
elem_size-free_raw mem p ptr = ground arith

module _ (src : List ℕ) (q : MessageQueue) (p : FixedMemoryPool) (has_pool : q.pool ≡ some p) where
  pushed : ℕ → FixedMemoryPool → MessageQueue
  pushed buf p' = record {
    queue = q.queue ++ (buf ∷ []);
    pool = some p';
    mem = fill q.mem buf src (room p');
  }

  push-long : ltb (room p) (length src) ≡ true → push src q ≡ some (false, q)
  unfolding push
  push-long long = rw (has_pool, long) refl

  push-full :
      ltb (room p) (length src) ≡ false
      → alloc_raw q.mem p ≡ (0, p)
      → push src q ≡ some (false, record q { pool = some p })
  unfolding push
  push-full short run = rw (has_pool, short, run) refl

  push-taken :
      (buf : ℕ) (p' : FixedMemoryPool)
      → ltb (room p) (length src) ≡ false
      → alloc_raw q.mem p ≡ (buf, p')
      → buf ≢ 0
      → push src q ≡ some (true, pushed buf p')
  unfolding push pushed
  push-taken buf p' short run ne = rw (has_pool, short, run) (ground (arith, ne))

module _ {q : MessageQueue} {p : FixedMemoryPool} {free : List ℕ} (inv : IsQueue q p free) where
  room_lem : room p + header_size ≡ p.elem_size
  room_lem = omega (arith, inv.sized, inv.small)

  module _ (src : List ℕ) (buf : ℕ) (rest : List ℕ) (p' : FixedMemoryPool)
      (size : p'.elem_size ≡ p.elem_size) (fits : length src ≤ room p)
      (apart : (y : ℕ) → Mem y q.queue → Apart p.elem_size buf y)
      (ok : IsPool q.mem p' rest (buf ∷ q.queue)) where
    kept :
        (map (message (fill q.mem buf src (room p'))) q.queue ≡ messages q)
        × AllFit (fill q.mem buf src (room p')) p.elem_size q.queue
    unfolding filled
    kept =
        messages-filled q.mem buf src (room p') p.elem_size (omega (arith, room_lem)) q.queue apart
          inv.fit

    messages-pushed : messages (pushed src q p inv.has_pool buf p') ≡ messages q ++ (src ∷ [])
    unfolding pushed filled
    messages-pushed =
        map-snoc (message (fill q.mem buf src (room p'))) q.queue buf
        ∙ ap₂ (λ xs x. xs ++ (x ∷ [])) kept.0
            (message-filled_self q.mem buf src (room p') p.elem_size (omega (arith, room_lem)))

    fill-IsPool : IsPool (fill q.mem buf src (room p')) p' rest (buf ∷ q.queue)
    fill-IsPool =
        store-IsPool
          (store-IsPool (copy_bytes-IsPool ok (buf + header_size) src) buf buf (length src)
            mem-cons_self (omega arith) (omega (arith, size, inv.sized)))
          buf (buf + 8) (room p') mem-cons_self (omega arith) (omega (arith, size, inv.sized))

    pushed-IsQueue : IsQueue (pushed src q p inv.has_pool buf p') p' rest
    unfolding pushed filled
    pushed-IsQueue = record {
      has_pool = refl;
      pool_inv =
          reorder-IsPool fill-IsPool (q.queue ++ (buf ∷ []))
            (Perm.symm (perm_append_singleton buf q.queue));
      fit =
          subst (λ n. AllFit (fill q.mem buf src (room p')) n (q.queue ++ (buf ∷ []))) (sym size)
            (AllFit-append (fill q.mem buf src (room p')) p.elem_size buf q.queue kept.1 (
              omega (
                arith,
                room_lem,
                filled-word_self q.mem buf src (room p') p.elem_size (omega (arith, room_lem)),
              )));
      sized = omega (arith, size, inv.sized);
      small = omega (arith, size, inv.small);
    }

  -- Push on an initialised queue. A message that is longer than a block's payload, or that finds no
  -- free block, is refused and nothing changes. Any other is appended to the messages, which are all
  -- kept as they were, and the queue keeps its invariant with one block less free.
  pub push-Pushes :
      (src : List ℕ)
      → ((push src q ≡ some (false, q)) × ((room p < length src) ⊎ (free ≡ [])))
        ⊎ ((q' : MessageQueue) × (p' : FixedMemoryPool) × (buf : ℕ) × (rest : List ℕ) × (push src q
              ≡ some (true, q'))
            × (free ≡ buf ∷ rest)
            × (length src ≤ room p)
            × (messages q' ≡ messages q ++ (src ∷ []))
            × IsQueue q' p' rest)
  push-Pushes src = elim (Bool-cases (ltb (room p) (length src))) [
    | inl long ↦ inl (push-long src q p inv.has_pool long, inl (ltb→lt _ _ long))
    | inr short ↦ elim (alloc_raw_lem inv.pool_inv) [
      | inl (e, run) ↦ inl (
        push-full src q p inv.has_pool short run
            ∙ ap (λ o. some (false, record q { pool = o })) (sym inv.has_pool),
        inr e,
      )
      | inr (buf, rest, p', e, run, ne, lo, hi, apart, ok) ↦
          let fits : length src ≤ room p = ltb→le _ _ short in
          let size : p'.elem_size ≡ p.elem_size =
            ap (λ r. r.1.elem_size) (sym run) ∙ elem_size-alloc_raw q.mem p in
          inr (
            pushed src q p inv.has_pool buf p',
            p',
            buf,
            rest,
            push-taken src q p inv.has_pool buf p' short run ne,
            e,
            fits,
            messages-pushed src buf rest p' size fits apart ok,
            pushed-IsQueue src buf rest p' size fits apart ok,
          )
    ]
  ]
