-- ===== src/Semaphore.antt =====
-- include/tool/Semaphore.h: a semaphore is a null handle (`none`), or its count.
use iocp_netlib.Base.{ℕ, ◌+◌, ◌-◌, Bool, true, false, Option, none, some, ltb, if◌then◌else◌}

abbrev pub Semaphore : Type 0
Semaphore = Option ℕ

abbrev pub max_count : ℕ
max_count = 0x7fffffff

-- Create closes the old handle. `granted` is whether CreateSemaphore gives a handle.
unfoldable pub create : Bool → ℕ → Semaphore
create granted init_count = if granted then some init_count else none

-- Wait with the object signalled, or up to the time-out: with a count of 0 nobody posts in time, and
-- a null handle makes the wait fail.
unfoldable pub wait : Semaphore → Bool × Semaphore
wait none = (false, none)
wait (some n) = if ltb 0 n then (true, some (n - 1)) else (false, some n)

-- ReleaseSemaphore fails at the maximum, and the source ignores that.
unfoldable pub post : Semaphore → Semaphore
post none = none
post (some n) = if ltb n max_count then some (n + 1) else some n
