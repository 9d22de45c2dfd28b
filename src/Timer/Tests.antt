-- ===== src/Timer/Tests.antt =====
-- include/tool/util.h: a timer of five seconds that is asked at three tick counts.
use iocp_netlib.Base.{ℕ, ◌+◌, ◌-◌, ◌*◌, ◌%◌, ◌^◌, ◌≤◌, ◌<◌, ◌≡◌, refl, List, [], ◌∷◌, arith}
use iocp_netlib.Timer.{is_timed, set_timer, get_ms_interval}
use iocp_netlib.Timer.Period.{fires, fires-period, get_ms_interval_lem}

abbrev ticks : List ℕ
ticks = 4999 ∷ 5000 ∷ 9999 ∷ []

fires_once : fires ticks (set_timer 0 5000) ≡ 1
unfolding is_timed set_timer
fires_once = refl

fires-period_example : fires ticks (set_timer 0 5000) * 5000 + 0 ≤ 9999
fires-period_example =
    fires-period 0 5000 ticks (omega arith, (omega arith, (omega arith, omega arith)))

get_ms_interval_lem_test :
    (4294967290 ≤ 5 → get_ms_interval 5 4294967290 ≡ 5 - 4294967290)
    × (5 < 4294967290 → get_ms_interval 5 4294967290 + 1 ≡ (5 + 2 ^ 32 - 4294967290) % 2 ^ 32)
get_ms_interval_lem_test = get_ms_interval_lem 5 4294967290 (omega arith) (omega arith)
