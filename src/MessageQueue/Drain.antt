-- ===== src/MessageQueue/Drain.antt =====
-- Baselib/MessageQueue.cpp, Front, Pop and Clear: the oldest message is read, then leaves the queue.
use mathlib.Core.List.{Mem, Nodup, mem-cons_self, mem-cons_of_mem, Nodup-append, Nodup-cons}
use mathlib.Core.List.Perm
use iocp_netlib.Base.{
  ℕ, ◌+◌, ◌≡◌, refl, sym, ap, ap₂, subst, ◌∙◌, ◌≢◌, ◌⊎◌, inl, inr, some, List, [], ◌∷◌, map, arith,
  length, List-cases,
}
use iocp_netlib.Memory.{Memory, store, update_other}
use iocp_netlib.FixedPool.{FixedMemoryPool, free_raw}
use iocp_netlib.FixedPool.Laws.{IsPool, all-Nodup, free_raw-IsPool}
use iocp_netlib.Packet.{read_bytes}
use iocp_netlib.MessageQueue.{
  MessageQueue, mpop_ok, mpop_empty, header_size, pop, front, release, clear, release_all,
}
use iocp_netlib.MessageQueue.Refine.{IsQueue, AllFit, message, messages, elem_size-free_raw}

-- Without the message at the head.
abbrev pub rest_of : List ℕ → MessageQueue → MessageQueue
rest_of rest q = record q { queue = rest }

module _ (mem : Memory) (buf v size : ℕ) where
  message-store : (y : ℕ) → buf ≢ y → message (store mem buf v) y ≡ message mem y
  message-store y ne = ap (read_bytes mem.byte (y + header_size)) (update_other mem.word buf v y ne)

  messages-store :
      (ys : List ℕ)
      → ((y : ℕ) → Mem y ys → buf ≢ y)
      → AllFit mem size ys
      → (map (message (store mem buf v)) ys ≡ map (message mem) ys)
        × AllFit (store mem buf v) size ys
  messages-store [] ne fit = (refl, tt)
  messages-store (y ∷ ys) ne (fit, rest) =
      let (e, f) = messages-store ys (λ z m. ne z (mem-cons_of_mem y m)) rest in
      (
        ap₂ ◌∷◌ (message-store y (ne y mem-cons_self)) e,
        (omega (arith, fit, update_other mem.word buf v y (ne y mem-cons_self)), f),
      )

free_raw-cases :
    (mem : Memory) (p : FixedMemoryPool) (ptr : ℕ)
    → ((free_raw mem p ptr).1 ≡ mem) ⊎ ((free_raw mem p ptr).1 ≡ store mem ptr p.free_list)
unfolding free_raw
free_raw-cases mem p ptr = ground arith

module _ {q : MessageQueue} {p : FixedMemoryPool} {free : List ℕ} (buf : ℕ) (rest : List ℕ)
    (inv : IsQueue q p free) (e : q.queue ≡ buf ∷ rest) where
  released : MessageQueue
  released = record {
    queue = rest;
    pool = some (free_raw q.mem p buf).0;
    mem = (free_raw q.mem p buf).1;
  }

  release_run : release buf (rest_of rest q) ≡ released
  unfolding release released
  release_run = rw inv.has_pool refl

  released-IsPool : IsPool (free_raw q.mem p buf).1 (free_raw q.mem p buf).0 (buf ∷ free) rest
  released-IsPool = free_raw-IsPool buf rest inv.pool_inv (rw e (Perm.refl _))

  apart : (y : ℕ) → Mem y rest → buf ≢ y
  apart y m q =
      (Nodup-cons.0 (subst Nodup e (Nodup-append.0 (all-Nodup inv.pool_inv)).1)).0 (rw q m)

  fit : AllFit q.mem p.elem_size (buf ∷ rest)
  fit = subst (AllFit q.mem p.elem_size) e inv.fit

  kept :
      (map (message (free_raw q.mem p buf).1) rest ≡ map (message q.mem) rest)
      × AllFit (free_raw q.mem p buf).1 p.elem_size rest
  kept = elim (free_raw-cases q.mem p buf) [
    | inl same ↦ rw same (refl, fit.1)
    | inr stored ↦ rw stored (messages-store q.mem buf p.free_list p.elem_size rest apart fit.1)
  ]

  size : (free_raw q.mem p buf).0.elem_size ≡ p.elem_size
  size = elem_size-free_raw q.mem p buf

  released-IsQueue : IsQueue released (free_raw q.mem p buf).0 (buf ∷ free)
  unfolding released
  released-IsQueue = record {
    has_pool = refl;
    pool_inv = released-IsPool;
    fit = subst (λ n. AllFit (free_raw q.mem p buf).1 n rest) (sym size) kept.1;
    sized = omega (arith, size, inv.sized);
    small = omega (arith, size, inv.small);
  }

  pop_run : pop q ≡ (mpop_ok, released)
  unfolding pop
  pop_run = rw e (ap (λ r. (mpop_ok, r)) release_run)

  front_run : front q ≡ (buf + header_size, q.mem.word buf)
  unfolding front
  front_run = rw e refl

  messages-released : messages q ≡ message q.mem buf ∷ messages released
  unfolding released
  messages-released = ap (map (message q.mem)) e ∙ ap (λ zs. message q.mem buf ∷ zs) (sym kept.0)

module _ (q : MessageQueue) (e : q.queue ≡ []) where
  empty-front : front q ≡ (0, 0)
  unfolding front
  empty-front = rw e refl

  empty-pop : pop q ≡ (mpop_empty, q)
  unfolding pop
  empty-pop = rw e refl

module _ {q : MessageQueue} {p : FixedMemoryPool} {free : List ℕ} (inv : IsQueue q p free) where
  -- Front and Pop on a queue that keeps its invariant. With no message, Front gives null and 0 and Pop
  -- reports MPOP_EMPTY and changes nothing. Otherwise the bytes at the address and of the length that
  -- Front gives are the oldest message, Pop removes exactly that one, all others stay as they were,
  -- and its block is free again.
  pub pop-front :
      ((messages q ≡ []) × (front q ≡ (0, 0)) × (pop q ≡ (mpop_empty, q)))
      ⊎ ((q' : MessageQueue) × (p' : FixedMemoryPool) × (buf : ℕ) × (pop q ≡ (mpop_ok, q'))
          × (messages q ≡ read_bytes q.mem.byte (front q).0 (front q).1 ∷ messages q')
          × IsQueue q' p' (buf ∷ free))
  pop-front = elim (List-cases q.queue) [
    | inl e ↦ inl (rw e refl, empty-front q e, empty-pop q e)
    | inr (buf, rest, e) ↦ inr (
      released buf rest inv e,
      (free_raw q.mem p buf).0,
      buf,
      pop_run buf rest inv e,
      rw (front_run buf rest inv e) (messages-released buf rest inv e),
      released-IsQueue buf rest inv e,
    )
  ]

release_all-IsQueue :
    (bufs : List ℕ) {q : MessageQueue} {p : FixedMemoryPool} {free : List ℕ}
    → IsQueue q p free
    → q.queue ≡ bufs
    → (p' : FixedMemoryPool) × (free' : List ℕ) × IsQueue (release_all bufs q) p' free'
      × ((release_all bufs q).queue ≡ [])
unfolding release_all released
release_all-IsQueue [] {q} {p} {free} inv e =
    (p, free, subst (λ xs. IsQueue (rest_of xs q) p free) e inv, refl)
release_all-IsQueue (buf ∷ rest) {q} {p} {free} inv e =
    let (p', free', ok, none_left) =
      release_all-IsQueue rest (released-IsQueue buf rest inv e) refl in
    (
      p',
      free',
      subst (λ r. IsQueue (release_all rest r) p' free') (sym (release_run buf rest inv e)) ok,
      subst (λ r. (release_all rest r).queue ≡ []) (sym (release_run buf rest inv e)) none_left,
    )

-- Clear on a queue that keeps its invariant: no message is left, and every block is free.
pub clear-IsQueue :
    {q : MessageQueue} {p : FixedMemoryPool} {free : List ℕ}
    → IsQueue q p free
    → (p' : FixedMemoryPool) × (free' : List ℕ) × IsQueue (clear q) p' free'
      × (messages (clear q) ≡ [])
      × (length free' ≡ p'.capacity)
unfolding clear
clear-IsQueue {q} inv =
    let (p', free', ok, none_left) = release_all-IsQueue q.queue inv refl in
    (
      p',
      free',
      ok,
      ap (map (message (clear q).mem)) none_left,
      omega (arith, ok.pool_inv.total, ap length none_left),
    )
