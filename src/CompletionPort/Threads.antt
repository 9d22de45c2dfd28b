-- ===== src/CompletionPort/Threads.antt =====
-- Netlib/NetCoreIOCP.cpp: the loop of Initialize that starts the workers.
use mathlib.Core.List.{Mem, mem-cons, mem-cons_self, mem-cons_of_mem, not-mem-nil}
use mathlib.Core.HLevel.{⊥_prop}
use mathlib.Core.Logic.Or
use iocp_netlib.Base.{
  ℕ, zero, suc, ◌+◌, ◌≤◌, ◌<◌, ◌≡◌, refl, sym, ap, subst, Bool, true, false, Option, none, some,
  List, [], ◌∷◌, length, replicate, arith,
}
use iocp_netlib.CompletionPort.{WorkerAnswers, start_threads}
use iocp_netlib.CompletionPort.Stop.{IsPending}

-- CreateEvent, operator new and Thread::Start have all worked.
abbrev pub IsStarted : WorkerAnswers → Type 0
IsStarted a = (a.event ≡ true) × (a.allocated ≡ true) × (a.started ≡ true)

-- The event was made and the thread did not start.
abbrev pub IsStuck : WorkerAnswers → Type 0
IsStuck a = (a.event ≡ true) × (a.allocated ≡ true) × (a.started ≡ false)

module _ (workers : ℕ → WorkerAnswers) where
  pub length-start_threads : (left i : ℕ) → length (start_threads workers left i).1 ≤ left
  unfolding start_threads
  length-start_threads zero i = omega arith
  length-start_threads (suc left) i = ground (arith, length-start_threads left (i + 1))

  -- The round of a thread that starts, and of one that does not.
  one_more :
      (left i : ℕ)
      → IsStarted (workers i)
      → start_threads workers (suc left) i ≡ (
        some false ∷ (start_threads workers left (i + 1)).0,
        i ∷ (start_threads workers left (i + 1)).1,
      )
  unfolding start_threads
  one_more left i (event, allocated, started) = rw (start_threads, event, allocated, started) refl

  one_stuck :
      (left i : ℕ)
      → IsStuck (workers i)
      → start_threads workers (suc left) i ≡ (some false ∷ replicate left none, [])
  unfolding start_threads
  one_stuck left i (event, allocated, started) = rw (start_threads, event, allocated, started) refl

  full-IsStarted :
      (left i : ℕ)
      → length (start_threads workers (suc left) i).1 ≡ suc left
      → IsStarted (workers i)
  unfolding start_threads
  full-IsStarted left i e = ground (arith, e, length-start_threads left (i + 1))

  abbrev Threads : Type 0
  Threads = List (Option Bool) × List ℕ

  -- A pending event at the end of a loop that started all threads belongs to one of them.
  pub all_started :
      (left i d : ℕ)
      → length (start_threads workers left i).1 ≡ left
      → IsPending (start_threads workers left i).0 d
      → Mem (i + d) (start_threads workers left i).1
  unfolding start_threads
  all_started zero i d e h = absurd cc
  all_started (suc left) i zero e h =
      subst (λ (r : Threads). Mem (i + 0) r.1) (sym (one_more left i (full-IsStarted left i e)))
        (subst (λ k. Mem k (i ∷ (start_threads workers left (i + 1)).1)) (omega arith)
          mem-cons_self)
  all_started (suc left) i (suc d) e h =
      let run = one_more left i (full-IsStarted left i e) in
      let rest : length (start_threads workers left (i + 1)).1 ≡ left =
        omega (arith, e, ap (λ (r : Threads). length r.1) run) in
      let m : Mem (i + 1 + d) (start_threads workers left (i + 1)).1 =
        all_started left (i + 1) d rest (subst (λ (r : Threads). IsPending r.0 (suc d)) run h) in
      subst (λ (r : Threads). Mem (i + suc d) r.1) (sym run)
        (mem-cons_of_mem i
          (subst (λ k. Mem k (start_threads workers left (i + 1)).1) (omega arith) m))

  -- The loop stops at the thread `i + d`, whose event stays behind.
  pub stuck-orphan :
      (d left i : ℕ)
      → d < left
      → ((j : ℕ) → i ≤ j → j < i + d → IsStarted (workers j))
      → IsStuck (workers (i + d))
      → IsPending (start_threads workers left i).0 d
        × (¬ Mem (i + d) (start_threads workers left i).1)
  stuck-orphan d zero i lt ok stuck = absurd (omega arith)
  stuck-orphan zero (suc left) i lt ok stuck =
      let same : i + 0 ≡ i = omega arith in
      let run = one_stuck left i (subst (λ k. IsStuck (workers k)) same stuck) in
      subst (λ (r : Threads). IsPending r.0 0 × (¬ Mem (i + 0) r.1)) (sym run) (refl, not-mem-nil)
  stuck-orphan (suc d) (suc left) i lt ok stuck =
      let same : i + suc d ≡ i + 1 + d = omega arith in
      let run = one_more left i (ok i (omega arith) (omega arith)) in
      let (pending, gone) =
        stuck-orphan d left (i + 1) (omega arith) (λ j ge lt'. ok j (omega arith) (omega arith))
          (subst (λ k. IsStuck (workers k)) same stuck) in
      subst (λ (r : Threads). IsPending r.0 (suc d) × (¬ Mem (i + suc d) r.1)) (sym run)
        (
          pending,
          λ m.
              Or.elim ⊥_prop (mem-cons.0 m) (λ e. omega arith)
                (λ m'. gone (subst (λ k. Mem k (start_threads workers left (i + 1)).1) same m')),
        )
