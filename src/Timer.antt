-- ===== src/Timer.antt =====
-- include/tool/util.h: CTimer on a tick count of 64 bits, and GetMsInterval for one of 32 bits.
pub mod Period
mod Tests
use iocp_netlib.Base.{ℕ, ◌+◌, ◌-◌, ◌%◌, ◌^◌, Bool, true, false, ltb, leb, if◌then◌else◌}

pub record CTimer : Type 0 where
  pub mill_timeout : ℕ
  pub last_mill_time : ℕ

-- IsTimed at the tick count `now`
unfoldable pub is_timed : ℕ → CTimer → Bool × CTimer
is_timed now t =
    if leb t.mill_timeout ((now + 2 ^ 64 - t.last_mill_time) % 2 ^ 64)
    then (true, record t { last_mill_time = now })
    else (false, t)

-- SetTimer at the tick count `now`
unfoldable pub set_timer : ℕ → ℕ → CTimer
set_timer now mill_timeout = record { mill_timeout = mill_timeout; last_mill_time = now }

-- GetMsInterval
unfoldable pub get_ms_interval : ℕ → ℕ → ℕ
get_ms_interval now last = if ltb now last then (0xFFFFFFFF - last + now) % 2 ^ 32 else now - last
