-- ===== src/Statistics/Exact.antt =====
-- Netlib/TcpService.cpp, logStats: each round logs the gauges and what was counted since the last Reset.
use iocp_netlib.Base.{
  ℕ, zero, suc, ◌+◌, ◌/◌, ◌%◌, ◌^◌, ◌<◌, ◌≤◌, ◌≡◌, refl, ap, ap₂, ◌∙◌, true, inl, inr, Option, none,
  some, List, [], ◌∷◌, ◌++◌, arith, length, map, Text, ltb, lt→ltb, get_or, Bool-cases,
  length-append,
}
use iocp_netlib.Http.Response.{digits, max_digits}
use iocp_netlib.Statistics.{
  Values, CSnmpStatistic, define, define_loop, update, assign, find, get_value, snapshot,
  snapshot_loop, reset, reset_loop, dump, dump_loop, line,
}
use iocp_netlib.Statistics.Rounds.{
  client_pool_used, send_io_context_used, send_pool_used, recv_pool_used, exception_context_used,
  timeout, accept, accept_succ, connection, service_stats, Gauges, set_gauges, log_stats, Counter,
  timeouts, accepts, accept_succs, count_all, Round, run_round, run_rounds,
}

length-digits : (fuel n : ℕ) → length (digits fuel n) ≤ fuel
unfolding digits
length-digits zero n = omega arith
length-digits (suc fuel) n = elim (Bool-cases (ltb n 10)) [
  | inl e ↦ rw e (omega arith)
  | inr e ↦ rw e (
      omega (
        arith,
        length-digits fuel (n / 10),
        length-append (digits fuel (n / 10)) ((48 + n % 10) ∷ []),
      ))
]

line_fits : (name : Text) (v : ℕ) → length name < 240 → ltb (length (line name v)) 255 ≡ true
line_fits name v short = lt→ltb _ _ (
    omega (
      arith,
      short,
      length-digits max_digits v,
      length-append name (32 ∷ 58 ∷ 32 ∷ (digits max_digits v ++ (10 ∷ []))),
      length-append (digits max_digits v) (10 ∷ []),
    ))

abbrev AllShort : List Text → Type 0
AllShort [] = Unit {0}
AllShort (n ∷ ns) = (length n < 240) × AllShort ns

-- The lines for the names, with the words of the buffer from the index on
abbrev pub lines : List Text → ℕ → List ℕ → Text
lines [] index buffer = []
lines (n ∷ ns) index buffer = line n (get_or buffer index 0) ++ lines ns (index + 1) buffer

dump_loop-lines :
    (names : List Text) (index : ℕ) (buffer : List ℕ)
    → AllShort names
    → dump_loop names index buffer ≡ some (lines names index buffer)
unfolding dump_loop
dump_loop-lines [] index buffer h = refl
dump_loop-lines (n ∷ ns) index buffer (short, h) =
    rw (dump_loop-lines ns (index + 1) buffer h, line_fits n (get_or buffer index 0) short) refl

same : Counter → Counter → ℕ
same timeouts timeouts = 1
same accepts accepts = 1
same accept_succs accept_succs = 1
same timeouts accepts = 0
same timeouts accept_succs = 0
same accepts timeouts = 0
same accepts accept_succs = 0
same accept_succs timeouts = 0
same accept_succs accepts = 0

-- How often a counter is increased
abbrev pub times : Counter → List Counter → ℕ
unfolding same
times c [] = 0
times c (d ∷ ds) = same c d + times c ds

abbrev values_of : Gauges → ℕ → ℕ → ℕ → Values
values_of g t a s =
    (client_pool_used, g.clients)
    ∷ (send_io_context_used, g.send_contexts)
    ∷ (send_pool_used, g.send_packets)
    ∷ (recv_pool_used, g.recv_packets)
    ∷ (exception_context_used, g.exception_contexts)
    ∷ (timeout, t)
    ∷ (accept, a)
    ∷ (accept_succ, s)
    ∷ (connection, g.connections)
    ∷ []

abbrev words_of : Gauges → ℕ → ℕ → ℕ → List ℕ
words_of g t a s =
    g.clients ∷ g.send_contexts ∷ g.send_packets ∷ g.recv_packets ∷ g.exception_contexts ∷ t ∷ a ∷ s
    ∷ g.connections ∷ []

abbrev no_gauges : Gauges
no_gauges = record {
  clients = 0;
  send_contexts = 0;
  send_packets = 0;
  recv_packets = 0;
  exception_contexts = 0;
  connections = 0;
}

-- A service's counters with these values and this snapshot
abbrev shape : Values → List ℕ → CSnmpStatistic
unfolding service_stats define
shape vs buffer = record service_stats { values = vs; buffer = buffer }

same_counts :
    (g : Gauges) (buffer : List ℕ) {t t' a a' s s' : ℕ}
    → t ≡ t'
    → a ≡ a'
    → s ≡ s'
    → ◌≡◌ {A = Option CSnmpStatistic}
        (some (shape (values_of g t a s) buffer))
        (some (shape (values_of g t' a' s') buffer))
same_counts g buffer et ea es = cc

count_all-shape :
    (cs : List Counter) (g : Gauges) (t a s : ℕ) (buffer : List ℕ)
    → t < 2 ^ 32
    → a < 2 ^ 32
    → s < 2 ^ 32
    → count_all cs (shape (values_of g t a s) buffer)
      ≡ some (
          shape
            (values_of g
              ((t + times timeouts cs) % 2 ^ 32)
              ((a + times accepts cs) % 2 ^ 32)
              ((s + times accept_succs cs) % 2 ^ 32))
            buffer)
unfolding count_all update find assign same shape times
count_all-shape [] g t a s buffer ht ha hs =
    same_counts g buffer (omega arith) (omega arith) (omega arith)
count_all-shape (timeouts ∷ cs) g t a s buffer ht ha hs =
    count_all-shape cs g ((t + 1) % 2 ^ 32) a s buffer (omega arith) ha hs
    ∙ same_counts g buffer (omega arith) (omega arith) (omega arith)
count_all-shape (accepts ∷ cs) g t a s buffer ht ha hs =
    count_all-shape cs g t ((a + 1) % 2 ^ 32) s buffer ht (omega arith) hs
    ∙ same_counts g buffer (omega arith) (omega arith) (omega arith)
count_all-shape (accept_succs ∷ cs) g t a s buffer ht ha hs =
    count_all-shape cs g t a ((s + 1) % 2 ^ 32) buffer ht ha (omega arith)
    ∙ same_counts g buffer (omega arith) (omega arith) (omega arith)

-- The gauges as the counters hold them
abbrev put_all : Gauges → Gauges
put_all g = record {
  clients = g.clients % 2 ^ 32;
  send_contexts = g.send_contexts % 2 ^ 32;
  send_packets = g.send_packets % 2 ^ 32;
  recv_packets = g.recv_packets % 2 ^ 32;
  exception_contexts = g.exception_contexts % 2 ^ 32;
  connections = g.connections % 2 ^ 32;
}

-- The text of a round: the gauges, and how often each counter was increased before its Snapshot.
abbrev pub logged : Round → Text
logged r = lines service_stats.names 0 (
    words_of (put_all r.gauges) (times timeouts r.before % 2 ^ 32) (times accepts r.before % 2 ^ 32)
      (times accept_succs r.before % 2 ^ 32))

abbrev no_words : List ℕ
no_words = words_of no_gauges 0 0 0

names_short : AllShort service_stats.names
unfolding service_stats define
names_short = (
  omega arith,
  (
    omega arith,
    (
      omega arith,
      (omega arith, (omega arith, (omega arith, (omega arith, (omega arith, (omega arith, tt)))))),
    ),
  ),
)

log_stats-shape :
    (g : Gauges) (t a s : ℕ)
    → log_stats g (shape (values_of no_gauges t a s) no_words)
      ≡ some (
        lines service_stats.names 0 (words_of (put_all g) t a s),
        shape (values_of (put_all g) t a s) (words_of (put_all g) t a s),
      )
unfolding log_stats set_gauges update find assign snapshot snapshot_loop get_value dump shape
    service_stats define
log_stats-shape g t a s =
    ap
      (λ (o : Option Text). elim o [
        | none ↦ none
        | some text ↦ some (text, shape (values_of (put_all g) t a s) (words_of (put_all g) t a s))
      ])
      (dump_loop-lines service_stats.names 0 (words_of (put_all g) t a s) names_short)

reset-shape :
    (g : Gauges) (t a s : ℕ) (h : Gauges) (t' a' s' : ℕ)
    → reset (shape (values_of g t a s) (words_of h t' a' s')) ≡ service_stats
unfolding reset reset_loop shape assign service_stats define define_loop
reset-shape g t a s h t' a' s' = refl

fresh-shape : service_stats ≡ shape (values_of no_gauges 0 0 0) no_words
unfolding shape service_stats define define_loop assign
fresh-shape = refl

run_round-logged : (r : Round) → run_round r service_stats ≡ some (logged r, service_stats)
unfolding run_round service_stats
run_round-logged r =
    let t : ℕ = times timeouts r.before % 2 ^ 32 in
    let a : ℕ = times accepts r.before % 2 ^ 32 in
    let s : ℕ = times accept_succs r.before % 2 ^ 32 in
    let first : count_all r.before service_stats
        ≡ some (shape (values_of no_gauges t a s) no_words) =
      ap (count_all r.before) fresh-shape
      ∙ count_all-shape r.before no_gauges 0 0 0 no_words (omega arith) (omega arith) (omega arith)
      ∙ same_counts no_gauges no_words (omega arith) (omega arith) (omega arith) in
    let second = log_stats-shape r.gauges t a s in
    let third =
      count_all-shape r.between (put_all r.gauges) t a s (words_of (put_all r.gauges) t a s)
        (omega arith) (omega arith) (omega arith) in
    rw (run_round, first, second, third)
      (ap some (
        ap₂ (λ (x : Text) (y : CSnmpStatistic). (x, y)) refl
          (reset-shape (put_all r.gauges) _ _ _ (put_all r.gauges) t a s)))

-- From the counters as the constructor of TcpService makes them, whatever is counted in whatever order: no
-- assert fails, each round of logStats logs one text with the nine lines, which hold the gauges and, for
-- Timeout, Accept and AcceptSucc, how often each was counted since the last Reset and before the round's
-- Snapshot, each modulo 2 ^ 32; and what is counted between a Snapshot and its Reset is in no text.
pub run_rounds-logged :
    (rs : List Round) → run_rounds rs service_stats ≡ some (map logged rs, service_stats)
unfolding run_rounds
run_rounds-logged [] = refl
run_rounds-logged (r ∷ rs) = rw (run_rounds, run_round-logged r, run_rounds-logged rs) refl
