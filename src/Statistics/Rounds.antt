-- ===== src/Statistics/Rounds.antt =====
-- Netlib/TcpService.cpp, logStats: what the lines of the log say of a service's counters, when the other
-- threads count on at any moment.
use iocp_netlib.Base.{ℕ, Option, none, some, List, [], ◌∷◌, Text, codes}
use iocp_netlib.Statistics.{
  CSnmpStatistic, construct, define, update, increase, put, snapshot, reset, dump,
}

abbrev pub client_pool_used : Text
client_pool_used = codes "ClientPoolUsed"

abbrev pub send_io_context_used : Text
send_io_context_used = codes "SendIOContextUsed"

abbrev pub send_pool_used : Text
send_pool_used = codes "SendPoolUsed"

abbrev pub recv_pool_used : Text
recv_pool_used = codes "RecvPoolUsed"

abbrev pub exception_context_used : Text
exception_context_used = codes "ExceptionContextUsed"

abbrev pub timeout : Text
timeout = codes "Timeout"

abbrev pub accept : Text
accept = codes "Accept"

abbrev pub accept_succ : Text
accept_succ = codes "AcceptSucc"

abbrev pub connection : Text
connection = codes "Connection"

-- mStats as the constructor of TcpService makes it.
unfoldable pub service_stats : CSnmpStatistic
service_stats =
    define
      (client_pool_used ∷ send_io_context_used ∷ send_pool_used ∷ recv_pool_used
        ∷ exception_context_used ∷ timeout ∷ accept ∷ accept_succ ∷ connection ∷ [])
      construct

-- What GetClientPoolUsed and its kin and GetConnectionCount return.
pub record Gauges : Type 0 where
  pub clients : ℕ
  pub send_contexts : ℕ
  pub send_packets : ℕ
  pub recv_packets : ℕ
  pub exception_contexts : ℕ
  pub connections : ℕ

abbrev pub then_update : (ℕ → ℕ) → Text → Option CSnmpStatistic → Option CSnmpStatistic
then_update f name o = elim o [ none ↦ none | some s ↦ update f name s ]

unfoldable pub set_gauges : Gauges → CSnmpStatistic → Option CSnmpStatistic
set_gauges g s = then_update (put g.connections) connection (
    then_update (put g.exception_contexts) exception_context_used (
      then_update (put g.recv_packets) recv_pool_used (
        then_update (put g.send_packets) send_pool_used (
          then_update (put g.send_contexts) send_io_context_used
            (update (put g.clients) client_pool_used s)))))

-- logStats up to its log line; `none` when an assert or sprintf_s ends the program.
unfoldable pub log_stats : Gauges → CSnmpStatistic → Option (Text × CSnmpStatistic)
log_stats g s = elim (set_gauges g s) [
  | none ↦ none
  | some s' ↦
      let shown = snapshot s' in elim (dump shown) [ none ↦ none | some text ↦ some (text, shown) ]
]

-- The counters that other code increases.
pub data Counter : Type 0 where
  timeouts accepts accept_succs : Counter

abbrev pub counter_name : Counter → Text
counter_name timeouts = timeout
counter_name accepts = accept
counter_name accept_succs = accept_succ

unfoldable pub count_all : List Counter → CSnmpStatistic → Option CSnmpStatistic
count_all [] s = some s
count_all (c ∷ cs) s = elim (update increase (counter_name c) s) [
  | none ↦ none
  | some s' ↦ count_all cs s'
]

-- A round of logStats: what is counted since the last one, the values of the gauges, and what other threads
-- count between its Snapshot and its Reset.
pub record Round : Type 0 where
  pub before : List Counter
  pub gauges : Gauges
  pub between : List Counter

unfoldable pub run_round : Round → CSnmpStatistic → Option (Text × CSnmpStatistic)
run_round r s = elim (count_all r.before s) [
  | none ↦ none
  | some s₁ ↦ elim (log_stats r.gauges s₁) [
    | none ↦ none
    | some (text, s₂) ↦ elim (count_all r.between s₂) [
      | none ↦ none
      | some s₃ ↦ some (text, reset s₃)
    ]
  ]
]

-- The texts that the rounds log, in order.
unfoldable pub run_rounds : List Round → CSnmpStatistic → Option (List Text × CSnmpStatistic)
run_rounds [] s = some ([], s)
run_rounds (r ∷ rs) s = elim (run_round r s) [
  | none ↦ none
  | some (text, s') ↦ elim (run_rounds rs s') [
    | none ↦ none
    | some (texts, s'') ↦ some (text ∷ texts, s'')
  ]
]
