-- ===== src/Http/Numbers.antt =====
-- Netlib/TcpClientHttp.cpp: atoi reads what %u has written.
use iocp_netlib.Base.{
  ℕ, zero, suc, ◌+◌, ◌-◌, ◌*◌, ◌/◌, ◌%◌, ◌^◌, ◌≤◌, ◌<◌, ◌≡◌, refl, sym, ap, ◌∙◌, inl, inr, true,
  false, List, [], ◌∷◌, ◌++◌, append_assoc, arith, ltb, ◌==◌, ltb→lt, lt→ltb, Bool-cases,
  if◌then◌else◌,
}
use iocp_netlib.Http.Fields.{
  is_digit, is_white, skip_white, read_digits, signed, atoi, atoi_positive, atoi_negative,
}
use iocp_netlib.Http.Response.{digits, max_digits}

abbrev pub pow10 : ℕ → ℕ
pow10 zero = 1
pow10 (suc n) = 10 * pow10 n

read_one :
    (n c : ℕ) (rest : List ℕ)
    → c < 10
    → read_digits n ((48 + c) ∷ rest) ≡ read_digits (n * 10 + c) rest
read_one n c rest lt =
    let digit : is_digit (48 + c) ≡ true = ground arith in
    let same : n * 10 + (48 + c - 48) ≡ n * 10 + c = omega arith in rw (digit, same) refl

pub read_digits-digits :
    (fuel n : ℕ) (rest : List ℕ)
    → n < pow10 fuel
    → read_digits 0 (digits fuel n ++ rest) ≡ read_digits n rest
unfolding digits
read_digits-digits zero n rest lt = ap (λ (k : ℕ). read_digits k rest) (omega arith)
read_digits-digits (suc fuel) n rest lt = elim (Bool-cases (ltb n 10)) [
  | inl h ↦
      rw (digits, h)
        (read_one 0 n rest (ltb→lt n 10 h) ∙ ap (λ (k : ℕ). read_digits k rest) (omega arith))
  | inr h ↦
      rw (digits, h)
        (ap (read_digits 0) (append_assoc (digits fuel (n / 10)) ((48 + n % 10) ∷ []) rest)
          ∙ read_digits-digits fuel (n / 10) ((48 + n % 10) ∷ rest) (omega arith)
          ∙ read_one (n / 10) (n % 10) rest (omega arith)
          ∙ ap (λ (k : ℕ). read_digits k rest) (omega arith))
]

-- The first digit
pub digits-head :
    (fuel n : ℕ)
    → n < pow10 (suc fuel)
    → (c : ℕ) × (cs : List ℕ) × (digits (suc fuel) n ≡ c ∷ cs) × (48 ≤ c) × (c ≤ 57)
unfolding digits
digits-head zero n lt =
    let small : n < 10 = omega arith in
    (48 + n, [], rw (digits, lt→ltb n 10 small) refl, omega arith, omega arith)
digits-head (suc fuel) n lt = elim (Bool-cases (ltb n 10)) [
  | inl h ↦ let small = ltb→lt n 10 h in (48 + n, [], rw (digits, h) refl, omega arith, omega arith)
  | inr h ↦
      let (c, cs, e, ge, le) = digits-head fuel (n / 10) (omega arith) in
      (
        c,
        cs ++ ((48 + n % 10) ∷ []),
        rw (digits, h) (ap (λ l. l ++ ((48 + n % 10) ∷ [])) e),
        ge,
        le,
      )
]

signed_digit :
    (c : ℕ) (cs : List ℕ) → 48 ≤ c → c ≤ 57 → atoi (c ∷ cs) ≡ atoi_positive (read_digits 0 (c ∷ cs))
signed_digit c cs ge le =
    let not_white : is_white c ≡ false = ground arith in
    let not_minus : (c == 45) ≡ false = ground arith in
    let not_plus : (c == 43) ≡ false = ground arith in
    ap (λ b. signed (if b then skip_white cs else (c ∷ cs))) not_white
    ∙ ap
        (λ b.
          if b
          then atoi_negative (read_digits 0 cs)
          else (if c == 43
              then atoi_positive (read_digits 0 cs)
              else atoi_positive (read_digits 0 (c ∷ cs))))
        not_minus
    ∙ ap
        (λ b.
          if b then atoi_positive (read_digits 0 cs) else atoi_positive (read_digits 0 (c ∷ cs)))
        not_plus

pub max_small : 2 ^ 31 ≤ pow10 max_digits
max_small = omega arith

-- In front of a line end, atoi reads back what %u has written of a number below 2 ^ 31.
pub atoi-digits :
    (n : ℕ) (rest : List ℕ) → n < 2 ^ 31 → atoi (digits max_digits n ++ (13 ∷ rest)) ≡ n
atoi-digits n rest lt =
    let (c, cs, e, ge, le) = digits-head 9 n (omega (arith, max_small)) in
    let number : read_digits 0 (digits max_digits n ++ (13 ∷ rest)) ≡ n =
      read_digits-digits max_digits n (13 ∷ rest) (omega (arith, max_small)) in
    ap (λ l. atoi (l ++ (13 ∷ rest))) e
    ∙ signed_digit c (cs ++ (13 ∷ rest)) ge le
    ∙ ap (λ l. atoi_positive (read_digits 0 (l ++ (13 ∷ rest)))) (sym e)
    ∙ ap atoi_positive number
    ∙ ap (λ b. if b then n else 2 ^ 31 - 1) (lt→ltb n (2 ^ 31) lt)
