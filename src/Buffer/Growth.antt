-- ===== src/Buffer/Growth.antt =====
-- include/tool/Buffer.h: the doubling loop of ensureCapacity ends.
use iocp_netlib.Base.{
  ℕ, zero, suc, ◌*◌, ◌%◌, ◌^◌, ◌≤◌, ◌<◌, ◌≡◌, refl, some, arith, ltb, ltb→lt, ltb→le, le→ltb,
  Bool-cases, inl, inr,
}
use iocp_netlib.Buffer.{grow, rounds}

-- What `fuel` rounds of doubling reach.
doubled : ℕ → ℕ → ℕ
doubled zero n = n
doubled (suc fuel) n = doubled fuel (n * 2)

doubled-le : (fuel m n : ℕ) → m ≤ n → doubled fuel m ≤ doubled fuel n
unfolding doubled
doubled-le zero m n h = h
doubled-le (suc fuel) m n h = doubled-le fuel (m * 2) (n * 2) (omega arith)

doubled_all : doubled 63 1 ≡ 2 ^ 63
unfolding doubled
doubled_all = refl

abbrev pub Grown : ℕ → ℕ → ℕ → Type 0
Grown start required c = (required ≤ c) × (c < 2 ^ 64) × (start < required → c < 2 * required)

grow_now :
    (fuel start required c : ℕ)
    → required ≤ start
    → grow (suc fuel) start required ≡ some c
    → c ≡ start
unfolding grow
grow_now fuel start required c ge run = ground (arith, le→ltb start required ge)

grow_of :
    (fuel start required : ℕ)
    → 0 < start
    → start < 2 ^ 64
    → required ≤ 2 ^ 63
    → required ≤ doubled fuel start
    → (c : ℕ) × (grow (suc fuel) start required ≡ some c) × Grown start required c
unfolding grow doubled
grow_of zero start required pos small le enough =
    (start, rw (le→ltb start required enough) refl, (enough, small, λ lt. absurd (omega arith)))
grow_of (suc fuel) start required pos small le enough = elim (Bool-cases (ltb start required)) [
  | inl h ↦
      let lt : start < required = ltb→lt start required h in
      let (c, run, (ge, fits, near)) =
        grow_of fuel (start * 2) required (omega arith) (omega arith) le enough in
      let same : start * 2 % 2 ^ 64 ≡ start * 2 = omega arith in
      (
        c,
        rw (h, same) run,
        (ge, fits, λ _. ground (arith, near, lt, grow_now fuel (start * 2) required c)),
      )
  | inr h ↦
      let ge : required ≤ start = ltb→le start required h in
      (start, rw h refl, (ge, small, λ lt. absurd (omega (arith, ge))))
]

-- The doubling loop of ensureCapacity, from a capacity that is not 0 and for at most 2 ^ 63 bytes, ends
-- within 64 rounds, without a wrap of size_t, with a capacity of at least what is required; if the
-- capacity was too small, the new one is less than twice what is required.
pub grow-Grown :
    (start required : ℕ)
    → 0 < start
    → start < 2 ^ 64
    → required ≤ 2 ^ 63
    → (c : ℕ) × (grow rounds start required ≡ some c) × Grown start required c
grow-Grown start required pos small le =
    grow_of 63 start required pos small le
      (omega (arith, doubled-le 63 1 start (omega arith), doubled_all))
