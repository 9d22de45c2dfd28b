-- ===== src/Statistics/Tests.antt =====
-- Runs of the counters of Baselib/SnmpStatistic.cpp.
use iocp_netlib.Base.{◌≡◌, refl, Option, none, some, [], ◌∷◌, ◌++◌, map, Text, codes}
use iocp_netlib.Http.Response.{digits}
use iocp_netlib.Statistics.{
  CSnmpStatistic, construct, define, define_loop, assign, find, update, increase, decrease,
  snapshot, snapshot_loop, get_value, dump, dump_loop, name_list, name_loop,
}
use iocp_netlib.Statistics.Rounds.{
  Round, timeouts, accepts, accept_succs, service_stats, run_rounds,
}
use iocp_netlib.Statistics.Exact.{logged, run_rounds-logged}

names : name_list (codes "q") 3 ≡ codes "q0" ∷ codes "q1" ∷ codes "q2" ∷ []
unfolding name_list name_loop digits
names = refl

-- A counter goes up twice and down once; the dump shows what the snapshot took.
abbrev one : Option CSnmpStatistic
one = elim (update increase (codes "n") (define (codes "n" ∷ []) construct)) [
  | none ↦ none
  | some s ↦ update increase (codes "n") s
]

abbrev shown : Option CSnmpStatistic → Option Text
shown o = elim o [ none ↦ none | some s ↦ dump (snapshot s) ]

dump_two : shown one ≡ some (codes "n : 2" ++ (10 ∷ []))
unfolding dump dump_loop snapshot snapshot_loop get_value update define define_loop assign find
    digits
dump_two = refl

undefined : update decrease (codes "m") (define (codes "n" ∷ []) construct) ≡ none
unfolding update define define_loop assign find
undefined = refl

abbrev busy : Round
busy = record {
  before = accepts ∷ accept_succs ∷ accepts ∷ [];
  gauges = record {
    clients = 4;
    send_contexts = 0;
    send_packets = 0;
    recv_packets = 2;
    exception_contexts = 0;
    connections = 3;
  };
  between = timeouts ∷ [];
}

abbrev quiet : Round
quiet = record busy { before = []; between = [] }

run_rounds-logged_example :
    run_rounds (busy ∷ quiet ∷ []) service_stats
    ≡ some (map logged (busy ∷ quiet ∷ []), service_stats)
run_rounds-logged_example = run_rounds-logged (busy ∷ quiet ∷ [])
