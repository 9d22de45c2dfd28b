-- ===== src/CompletionPort/Workers.antt =====
-- Netlib/NetCoreIOCP.cpp: IOCPWorkProc, on a queue that the workers share.
use mathlib.Core.List.{Perm}
use iocp_netlib.Base.{
  ℕ, zero, suc, ◌≡◌, ◌≢◌, Bool, true, Option, none, some, List, [], ◌∷◌, ◌++◌, length, replicate,
  if◌then◌else◌,
}

-- What GetQueuedCompletionStatus gives: its result, the completion key and the overlapped structure,
-- each possibly null, and the bytes.
pub record Packet : Type 0 where
  pub result : Bool
  pub key : Option ℕ
  pub overlapped : Option ℕ
  pub bytes : ℕ

pub data Work : Type 0 where
  completes : ℕ → Bool → ℕ → ℕ → Work
  ignores : Work
  exits : Work

-- The body of the loop: the object called with its arguments, or nothing, or the end of the worker.
unfoldable pub work_proc : Packet → Work
work_proc p = elim p.overlapped [
  | none ↦ if p.result then exits else ignores
  | some ct ↦ elim p.key [
    | none ↦ if p.result then exits else ignores
    | some key ↦ completes key p.result ct p.bytes
  ]
]

-- The packet of UnInitialize.
abbrev pub stop_packet : Packet
stop_packet = record { result = true; key = none; overlapped = none; bytes = 0 }

-- SetEvent on an exit handle, if it is not NULL.
unfoldable pub set_event : ℕ → List (Option Bool) → List (Option Bool)
set_event i [] = []
set_event zero (none ∷ rest) = none ∷ rest
set_event zero (some _ ∷ rest) = some true ∷ rest
set_event (suc i) (h ∷ rest) = h ∷ set_event i rest

-- The queue, the indices of the workers in their loops, the exit events and the calls so far.
pub record Workers : Type 0 where
  pub queue : List Packet
  pub alive : List ℕ
  pub handles : List (Option Bool)
  pub calls : List Work

-- The worker `i` has taken a packet; `rest` are the others.
unfoldable pub serve : ℕ → List ℕ → Work → Workers → Workers
serve i rest (completes key ok ct bytes) s = record s {
  calls = s.calls ++ (completes key ok ct bytes ∷ []);
}
serve i rest ignores s = s
serve i rest exits s = record s { alive = rest; handles = set_event i s.handles }

pub data Step (s : Workers) : Workers → Type 0 where
  takes :
      (i : ℕ) (rest : List ℕ) (p : Packet) (queue : List Packet)
      → s.queue ≡ p ∷ queue
      → Perm s.alive (i ∷ rest)
      → Step s (serve i rest (work_proc p) (record s { queue = queue }))
  posts : (p : Packet) → work_proc p ≢ exits → Step s (record s { queue = s.queue ++ (p ∷ []) })

pub data Reach (s : Workers) : Workers → Type 0 where
  here : Reach s s
  next : {t u : Workers} → Reach s t → Step t u → Reach s u

-- The packets that UnInitialize posts, one for each thread of mThreads.
unfoldable pub post_stops : Workers → Workers
post_stops s = record s { queue = s.queue ++ replicate (length s.alive) stop_packet }
