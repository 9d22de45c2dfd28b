-- ===== src/CompletionPort/Stop.antt =====
-- Netlib/NetCoreIOCP.cpp: the stop packets of UnInitialize end the workers, and each sets its event.
use mathlib.Core.List.{Mem, Perm, mem-cons, mem-cons_self, mem-cons_of_mem, not-mem-nil}
use mathlib.Core.List.Perm
use mathlib.Core.HLevel.{⊥_prop}
use mathlib.Core.Logic.Or
use iocp_netlib.Base.{
  ℕ, zero, suc, ◌+◌, ◌≡◌, ◌≢◌, refl, sym, ap, subst, ◌∙◌, inl, inr, Bool, true, false, Option, none,
  some, List, [], ◌∷◌, ◌++◌, length, replicate, get_or, length-append, Perm-length, arith,
  List-cases,
}
use iocp_netlib.CompletionPort.{all_signalled}
use iocp_netlib.CompletionPort.Workers.{
  Packet, Work, completes, ignores, exits, work_proc, stop_packet, set_event, Workers, serve, Step,
  takes, posts, Reach, here, next, post_stops,
}

abbrev pub handle_at : List (Option Bool) → ℕ → Option Bool
handle_at hs i = get_or hs i none

-- The event of the index `i` exists and is not signalled.
abbrev pub IsPending : List (Option Bool) → ℕ → Type 0
IsPending hs i = handle_at hs i ≡ some false

some_true : ◌≢◌ {A = Option Bool} (some true) (some false)
some_true = λ e. cc

set_event_self : (i : ℕ) (hs : List (Option Bool)) → handle_at (set_event i hs) i ≢ some false
unfolding set_event
set_event_self i [] = λ e. cc
set_event_self zero (none ∷ hs) = λ e. cc
set_event_self zero (some b ∷ hs) = some_true
set_event_self (suc i) (h ∷ hs) = set_event_self i hs

set_event_other :
    (i j : ℕ) (hs : List (Option Bool)) → i ≢ j → handle_at (set_event i hs) j ≡ handle_at hs j
unfolding set_event
set_event_other i j [] ne = refl
set_event_other zero zero (h ∷ hs) ne = absurd (ne refl)
set_event_other zero (suc j) (none ∷ hs) ne = refl
set_event_other zero (suc j) (some b ∷ hs) ne = refl
set_event_other (suc i) zero (h ∷ hs) ne = refl
set_event_other (suc i) (suc j) (h ∷ hs) ne = set_event_other i j hs (omega arith)

none_pending : (hs : List (Option Bool)) → ((i : ℕ) → ¬ IsPending hs i) → all_signalled hs ≡ true
unfolding all_signalled
none_pending [] h = refl
none_pending (none ∷ hs) h = none_pending hs (λ i. h (suc i))
none_pending (some true ∷ hs) h = none_pending hs (λ i. h (suc i))
none_pending (some false ∷ hs) h = absurd (h 0 refl)

some_pending : (hs : List (Option Bool)) (i : ℕ) → IsPending hs i → all_signalled hs ≡ false
unfolding all_signalled
some_pending [] i h = absurd cc
some_pending (none ∷ hs) zero h = absurd cc
some_pending (none ∷ hs) (suc i) h = some_pending hs i h
some_pending (some true ∷ hs) zero h = absurd (some_true h)
some_pending (some true ∷ hs) (suc i) h = some_pending hs i h
some_pending (some false ∷ hs) i h = refl

-- The stop packets in a queue.
abbrev pub stops_of : Work → ℕ
stops_of exits = 1
stops_of _ = 0

abbrev pub stops : List Packet → ℕ
stops [] = 0
stops (p ∷ queue) = stops_of (work_proc p) + stops queue

stops-append : (ps qs : List Packet) → stops (ps ++ qs) ≡ stops ps + stops qs
stops-append [] qs = omega arith
stops-append (p ∷ ps) qs = omega (arith, stops-append ps qs)

stops-replicate : (n : ℕ) → stops (replicate n stop_packet) ≡ n
unfolding work_proc
stops-replicate zero = refl
stops-replicate (suc n) = omega (arith, stops-replicate n)

not_exit : (w : Work) → w ≢ exits → stops_of w ≡ 0
not_exit (completes key ok ct bytes) ne = refl
not_exit ignores ne = refl
not_exit exits ne = absurd (ne refl)

-- As many stop packets are queued as workers run, and an event that is not signalled belongs to one of
-- them, or was `lost` from the start.
record IsStopping (lost : ℕ → Type 0) (s : Workers) : Type 0 where
  balance : stops s.queue ≡ length s.alive
  waited : (i : ℕ) → IsPending s.handles i → ¬ Mem i s.alive → lost i
  never : (i : ℕ) → lost i → IsPending s.handles i × (¬ Mem i s.alive)

module _ {lost : ℕ → Type 0} {s : Workers} (v : IsStopping lost s) where
  serve-IsStopping :
      (i : ℕ) (rest : List ℕ) (w : Work) (queue : List Packet)
      → stops_of w + stops queue ≡ length s.alive
      → Perm s.alive (i ∷ rest)
      → IsStopping lost (serve i rest w (record s { queue = queue }))
  unfolding serve
  serve-IsStopping i rest (completes key ok ct bytes) queue e p = record {
    balance = omega (arith, e);
    waited = v.waited;
    never = v.never;
  }
  serve-IsStopping i rest ignores queue e p = record {
    balance = omega (arith, e);
    waited = v.waited;
    never = v.never;
  }
  serve-IsStopping i rest exits queue e p = record {
    balance = omega (arith, e, Perm-length p);
    waited = λ j pending gone.
        let ne : i ≢ j = λ e.
          set_event_self i s.handles
            (subst (λ k. IsPending (set_event i s.handles) k) (sym e) pending) in
        v.waited j (sym (set_event_other i j s.handles ne) ∙ pending)
          (λ m. Or.elim ⊥_prop (mem-cons.0 ((Perm.mem_iff p).0 m)) (λ e. ne (sym e)) gone);
    never = λ j l.
        let (pending, gone) = v.never j l in
        let ne : i ≢ j =
          λ e. gone (subst (λ k. Mem k s.alive) e ((Perm.mem_iff p).1 mem-cons_self)) in
        (
          set_event_other i j s.handles ne ∙ pending,
          λ m. gone ((Perm.mem_iff p).1 (mem-cons_of_mem i m)),
        );
  }

  Step-IsStopping : {t : Workers} → Step s t → IsStopping lost t
  Step-IsStopping (takes i rest p queue e perm) =
      serve-IsStopping i rest (work_proc p) queue (ap stops (sym e) ∙ v.balance) perm
  Step-IsStopping (posts p ne) = record {
    balance = omega (arith, stops-append s.queue (p ∷ []), not_exit (work_proc p) ne, v.balance);
    waited = v.waited;
    never = v.never;
  }

Reach-IsStopping :
    {lost : ℕ → Type 0} {s t : Workers} → IsStopping lost s → Reach s t → IsStopping lost t
Reach-IsStopping v here = v
Reach-IsStopping v (next r st) = Step-IsStopping (Reach-IsStopping v r) st

-- An event that no running worker is there to signal.
abbrev pub IsOrphan : Workers → ℕ → Type 0
IsOrphan s i = IsPending s.handles i × (¬ Mem i s.alive)

post_stops-IsStopping : (s : Workers) → stops s.queue ≡ 0 → IsStopping (IsOrphan s) (post_stops s)
unfolding post_stops
post_stops-IsStopping s none_yet = record {
  balance = omega (
    arith,
    none_yet,
    stops-append s.queue (replicate (length s.alive) stop_packet),
    stops-replicate (length s.alive),
  );
  waited = λ i pending gone. (pending, gone);
  never = λ i orphan. orphan;
}

-- How many packets a run takes and posts.
abbrev pub taken_in : {s t : Workers} → Reach s t → ℕ
taken_in here = 0
taken_in (next r (takes _ _ _ _ _ _)) = taken_in r + 1
taken_in (next r (posts _ _)) = taken_in r

abbrev pub posted_in : {s t : Workers} → Reach s t → ℕ
posted_in here = 0
posted_in (next r (takes _ _ _ _ _ _)) = posted_in r
posted_in (next r (posts _ _)) = posted_in r + 1

queue-serve : (i : ℕ) (rest : List ℕ) (w : Work) (s : Workers) → (serve i rest w s).queue ≡ s.queue
unfolding serve
queue-serve i rest (completes key ok ct bytes) s = refl
queue-serve i rest ignores s = refl
queue-serve i rest exits s = refl

queue_balance :
    {s t : Workers} (r : Reach s t) → taken_in r + length t.queue ≡ posted_in r + length s.queue
queue_balance here = refl
queue_balance (next {t = u} r (takes i rest p queue e perm)) = omega (
  arith,
  queue_balance r,
  ap length e,
  ap length (queue-serve i rest (work_proc p) (record u { queue = queue })),
)
queue_balance (next {t = u} r (posts p ne)) =
    omega (arith, queue_balance r, length-append u.queue (p ∷ []))

no_more : (l : List ℕ) → length l ≡ 0 → l ≡ []
no_more [] e = refl
no_more (x ∷ l) e = absurd (omega arith)

-- After UnInitialize has posted a stop packet for each worker, to a queue without one, and while the
-- workers go on and requests complete in any order: as long as a worker runs, a packet is there for
-- it; every packet that is posted is taken at most once, so that the workers are done after as many
-- packets as were queued and posted; and when none runs, the waits of UnInitialize end, if each event
-- that is not signalled has a running worker at the start.
pub post_stops-end :
    (s : Workers) {t : Workers}
    → stops s.queue ≡ 0
    → ((i : ℕ) → ¬ IsOrphan s i)
    → (r : Reach (post_stops s) t)
    → (t.alive ≢ [] → (p : Packet) × (queue : List Packet) × (t.queue ≡ p ∷ queue))
      × (taken_in r + length t.queue ≡ posted_in r + length (post_stops s).queue)
      × (t.alive ≡ [] → all_signalled t.handles ≡ true)
post_stops-end s {t} none_yet owned r =
    let v : IsStopping (IsOrphan s) t = Reach-IsStopping (post_stops-IsStopping s none_yet) r in
    (
      λ running. elim (List-cases t.queue) [
        | inl e ↦ absurd (running (no_more t.alive (omega (arith, ap stops e, v.balance))))
        | inr more ↦ more
      ],
      queue_balance r,
      λ done. none_pending t.handles (λ i pending.
          owned i (v.waited i pending (λ m. not-mem-nil (subst (λ l. Mem i l) done m)))),
    )

-- An exit event without a worker to signal it is never signalled, whatever the workers do after the
-- stop packets are posted, so that the wait of UnInitialize for it goes on for ever.
pub post_stops-orphan :
    (s : Workers) {t : Workers} (i : ℕ)
    → stops s.queue ≡ 0
    → IsOrphan s i
    → Reach (post_stops s) t
    → all_signalled t.handles ≡ false
post_stops-orphan s {t} i none_yet orphan r =
    let v : IsStopping (IsOrphan s) t = Reach-IsStopping (post_stops-IsStopping s none_yet) r in
    some_pending t.handles i (v.never i orphan).0
