-- ===== src/Timer/Period.antt =====
-- include/tool/util.h: how often a timer fires, and the interval across the wrap of the tick count.
use iocp_netlib.Base.{
  ℕ, ◌+◌, ◌-◌, ◌*◌, ◌%◌, ◌^◌, ◌≤◌, ◌<◌, ◌≡◌, ◌⊎◌, inl, inr, true, false, List, [], ◌∷◌, arith,
  if◌then◌else◌,
}
use iocp_netlib.Timer.{CTimer, is_timed, set_timer, get_ms_interval}

-- How often IsTimed answers true when it is asked at these tick counts.
abbrev pub fires : List ℕ → CTimer → ℕ
fires [] t = 0
fires (now ∷ rest) t = (if (is_timed now t).0 then 1 else 0) + fires rest (is_timed now t).1

abbrev pub Ascending : ℕ → List ℕ → Type 0
Ascending a [] = a < 2 ^ 64
Ascending a (now ∷ rest) = (a ≤ now) × Ascending now rest

abbrev pub last_of : ℕ → List ℕ → ℕ
last_of a [] = a
last_of a (now ∷ rest) = last_of now rest

last_of-le : (a : ℕ) (ticks : List ℕ) → Ascending a ticks → a ≤ last_of a ticks
last_of-le a [] h = omega arith
last_of-le a (now ∷ rest) h = omega (arith, h.0, last_of-le now rest h.1)

small : (a : ℕ) (ticks : List ℕ) → Ascending a ticks → a < 2 ^ 64
small a [] h = h
small a (now ∷ rest) h = omega (arith, h.0, small now rest h.1)

is_timed-cases :
    (now : ℕ) (t : CTimer)
    → t.last_mill_time ≤ now
    → now < 2 ^ 64
    → ((is_timed now t ≡ (true, record t { last_mill_time = now }))
        × (t.last_mill_time + t.mill_timeout ≤ now))
      ⊎ (is_timed now t ≡ (false, t))
unfolding is_timed
is_timed-cases now t le lt = ground arith

one_more :
    (n period a now l : ℕ) → n * period + now ≤ l → a + period ≤ now → (1 + n) * period + a ≤ l
one_more n period a now l h late = omega arith

fires-bound :
    (ticks : List ℕ) (t : CTimer) (a : ℕ)
    → t.last_mill_time ≤ a
    → Ascending a ticks
    → fires ticks t * t.mill_timeout + t.last_mill_time ≤ last_of a ticks
fires-bound [] t a le h = omega arith
fires-bound (now ∷ rest) t a le h =
    elim (is_timed-cases now t (omega (arith, h.0)) (small now rest h.1)) [
      | inl (run, late) ↦
          let later = fires-bound rest (record t { last_mill_time = now }) now (omega arith) h.1 in
          rw run (
            one_more (fires rest (record t { last_mill_time = now })) t.mill_timeout
              t.last_mill_time now (last_of now rest) later late)
      | inr run ↦
          let later = fires-bound rest t now (omega (arith, h.0)) h.1 in
          rw run (omega (arith, later))
    ]

-- A timer that is set at the tick count `start` and then asked at any ascending tick counts below
-- 2 ^ 64 answers true at most once in each period: the number of those answers times the time-out is
-- at most the time that has passed.
pub fires-period :
    (start mill_timeout : ℕ) (ticks : List ℕ)
    → Ascending start ticks
    → fires ticks (set_timer start mill_timeout) * mill_timeout + start ≤ last_of start ticks
unfolding set_timer
fires-period start mill_timeout ticks h =
    fires-bound ticks (set_timer start mill_timeout) start (omega arith) h

-- GetMsInterval on tick counts of 32 bits: exact unless the count has wrapped in between, and then one
-- millisecond too short.
pub get_ms_interval_lem :
    (now last : ℕ)
    → now < 2 ^ 32
    → last < 2 ^ 32
    → (last ≤ now → get_ms_interval now last ≡ now - last)
      × (now < last → get_ms_interval now last + 1 ≡ (now + 2 ^ 32 - last) % 2 ^ 32)
unfolding get_ms_interval
get_ms_interval_lem now last hn hl = (λ h. ground arith, λ h. ground arith)
