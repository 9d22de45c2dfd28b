-- ===== src/MessageQueue/Calls.antt =====
-- Baselib/MessageQueue.cpp: its calls one after another, and the bounded queue that they act as.
use iocp_netlib.Base.{
  ℕ, Bool, true, false, ◌||◌, Option, none, some, List, [], ◌∷◌, ◌++◌, length, ltb, leb,
  if◌then◌else◌,
}
use iocp_netlib.Packet.{read_bytes}
use iocp_netlib.MessageQueue.{
  MessageQueue, MPopResult, mpop_ok, mpop_empty, push, front, pop, clear,
}

-- `pops` reads the message that Front gives, and then calls Pop.
pub data Call : Type 0 where
  pushes : List ℕ → Call
  pops clears : Call

pub data Answer : Type 0 where
  pushed : Bool → Answer
  popped : MPopResult → List ℕ → Answer
  cleared : Answer

abbrev pub push_answer : Option (Bool × MessageQueue) → Option (Answer × MessageQueue)
push_answer none = none
push_answer (some (ok, q)) = some (pushed ok, q)

unfoldable pub serve : Call → MessageQueue → Option (Answer × MessageQueue)
serve (pushes src) q = push_answer (push src q)
serve pops q =
    let (buf, len) = front q in
    let (result, q') = pop q in some (popped result (read_bytes q.mem.byte buf len), q')
serve clears q = some (cleared, clear q)

abbrev pub and_then :
    Answer → Option (List Answer × MessageQueue) → Option (List Answer × MessageQueue)
and_then a none = none
and_then a (some (rest, q)) = some (a ∷ rest, q)

unfoldable pub run : List Call → MessageQueue → Option (List Answer × MessageQueue)
run [] q = some ([], q)
run (c ∷ cs) q = elim (serve c q) [ none ↦ none | some (a, q') ↦ and_then a (run cs q') ]

-- A queue of at most `cap` messages of at most `max` bytes.
unfoldable pub fifo : ℕ → ℕ → Call → List (List ℕ) → Answer × List (List ℕ)
fifo cap max (pushes src) ms =
    if ltb max (length src) || leb cap (length ms)
    then (pushed false, ms)
    else (pushed true, ms ++ (src ∷ []))
fifo cap max pops [] = (popped mpop_empty [], [])
fifo cap max pops (m ∷ ms) = (popped mpop_ok m, ms)
fifo cap max clears ms = (cleared, [])

unfoldable pub fifo_run : ℕ → ℕ → List Call → List (List ℕ) → List Answer × List (List ℕ)
fifo_run cap max [] ms = ([], ms)
fifo_run cap max (c ∷ cs) ms =
    let (a, ms') = fifo cap max c ms in
    let (rest, last) = fifo_run cap max cs ms' in (a ∷ rest, last)
