-- ===== src/Http/Lines.antt =====
-- Netlib/TcpClient.cpp and Netlib/TcpClientHttp.cpp: the line ends and the blank line in the head of a
-- message that is made of lines.
use iocp_netlib.Base.{
  ℕ, zero, suc, ◌+◌, ◌/◌, ◌%◌, ◌≡◌, ◌≢◌, refl, ap, ◌∙◌, inl, inr, Bool, true, false, ◌&&◌, Option,
  none, some, List, [], ◌∷◌, ◌++◌, append_assoc, arith, length, drop, ltb, ◌==◌, ◌||◌,
  if◌then◌else◌, Bool-cases,
}
use iocp_netlib.Http.{starts_with, strstr, crlf, blank_line}
use iocp_netlib.Http.Fields.{content_length}
use iocp_netlib.Http.Split.{c_string}
use iocp_netlib.Http.Response.{
  ok_text, not_found_text, unknown_text, digits, max_digits, http_1_1, status_line, length_line,
  get_http_status_description,
}

-- Bytes without a carriage return and without a zero byte.
abbrev pub IsLine : List ℕ → Type 0
IsLine [] = Unit {0}
IsLine (c ∷ cs) = (c ≢ 13) × (c ≢ 0) × IsLine cs

abbrev pub NoZero : List ℕ → Type 0
NoZero [] = Unit {0}
NoZero (c ∷ cs) = (c ≢ 0) × NoZero cs

abbrev pub AllLines : List (List ℕ) → Type 0
AllLines [] = Unit {0}
AllLines (l ∷ ls) = (l ≢ []) × IsLine l × AllLines ls

pub IsLine-append : (xs ys : List ℕ) → IsLine xs → IsLine ys → IsLine (xs ++ ys)
IsLine-append [] ys h h' = h'
IsLine-append (x ∷ xs) ys h h' = (h.0, h.1, IsLine-append xs ys h.2 h')

pub NoZero-append : (xs ys : List ℕ) → NoZero xs → NoZero ys → NoZero (xs ++ ys)
NoZero-append [] ys h h' = h'
NoZero-append (x ∷ xs) ys h h' = (h.0, NoZero-append xs ys h.1 h')

IsLine-NoZero : (xs : List ℕ) → IsLine xs → NoZero xs
IsLine-NoZero [] h = h
IsLine-NoZero (x ∷ xs) h = (h.1, IsLine-NoZero xs h.2)

pub c_string-NoZero : (xs : List ℕ) → NoZero xs → c_string xs ≡ xs
c_string-NoZero [] h = refl
c_string-NoZero (x ∷ xs) h =
    let ne : (x == 0) ≡ false = ground (arith, h.0) in
    ap (λ b. if b then [] else (x ∷ c_string xs)) ne ∙ ap (◌∷◌ x) (c_string-NoZero xs h.1)

-- A head of lines, and what follows it.
abbrev pub message : List (List ℕ) → List ℕ → List ℕ
message [] body = crlf ++ body
message (l ∷ ls) body = l ++ (crlf ++ message ls body)

abbrev pub lines_text : List (List ℕ) → List ℕ
lines_text [] = []
lines_text (l ∷ ls) = l ++ (crlf ++ lines_text ls)

pub lines_text-message :
    (ls : List (List ℕ)) (body : List ℕ) → lines_text ls ++ (crlf ++ body) ≡ message ls body
lines_text-message [] body = refl
lines_text-message (l ∷ ls) body =
    append_assoc l (crlf ++ lines_text ls) (crlf ++ body)
    ∙ ap (λ t. l ++ (crlf ++ t)) (lines_text-message ls body)

pub lines_text-NoZero : (ls : List (List ℕ)) → AllLines ls → NoZero (lines_text ls)
lines_text-NoZero [] h = tt
lines_text-NoZero (l ∷ ls) h =
    NoZero-append l (crlf ++ lines_text ls) (IsLine-NoZero l h.1)
      ((λ e. omega arith), ((λ e. omega arith), lines_text-NoZero ls h.2))

-- A pattern that begins with a carriage return is not found in a line.
pub strstr_past :
    (ps l t : List ℕ) (k : ℕ)
    → IsLine l
    → strstr (13 ∷ ps) t ≡ some k
    → strstr (13 ∷ ps) (l ++ t) ≡ some (length l + k)
strstr_past ps [] t k h run = run ∙ ap some (omega arith)
strstr_past ps (c ∷ cs) t k h run =
    let ne : (13 == c) ≡ false = ground (arith, h.0) in
    rw (ne, strstr_past ps cs t k h.2 run) (ap some (omega arith))

abbrev up : Option ℕ → Option ℕ
up o = elim o [ none ↦ none | some k ↦ some (suc k) ]

-- Where the blank line of a head stands, behind the line end in front of it.
abbrev pub head_len : List (List ℕ) → ℕ
head_len [] = 0
head_len (l ∷ ls) = 2 + (length l + head_len ls)

pub blank_at :
    (ls : List (List ℕ)) (body : List ℕ)
    → AllLines ls
    → strstr blank_line (crlf ++ message ls body) ≡ some (head_len ls)
blank_at [] body h = refl
blank_at ([] ∷ ls) body h = absurd (h.0 refl)
blank_at ((c ∷ cs) ∷ ls) body h =
    let ne : (13 == c) ≡ false = ground (arith, h.1.0) in
    let rest =
      strstr_past (10 ∷ 13 ∷ 10 ∷ []) (c ∷ cs) (crlf ++ message ls body) (head_len ls) h.1
        (blank_at ls body h.2) in
    let text : List ℕ = (c ∷ cs) ++ (crlf ++ message ls body) in
    ap
      (λ b.
        if b && starts_with (10 ∷ []) (cs ++ (crlf ++ message ls body))
        then some 0
        else up (up (strstr blank_line text)))
      ne
    ∙ ap (λ o. up (up o)) rest
    ∙ ap some (omega arith)

pub drop_past : (l t : List ℕ) (m k : ℕ) → k ≡ length l + m → drop k (l ++ t) ≡ drop m t
drop_past [] t m k e = ap (λ (n : ℕ). drop n t) (omega arith)
drop_past (x ∷ l) t m zero e = absurd (omega arith)
drop_past (x ∷ l) t m (suc k) e = drop_past l t m k (omega arith)

pub drop_head :
    (ls : List (List ℕ)) (body : List ℕ) → drop (head_len ls + 4) (crlf ++ message ls body) ≡ body
drop_head [] body = refl
drop_head (l ∷ ls) body =
    ap (λ (n : ℕ). drop n (crlf ++ (l ++ (crlf ++ message ls body)))) (omega arith)
    ∙ drop_past (crlf ++ l) (crlf ++ message ls body) (head_len ls + 4)
        (2 + (length l + (head_len ls + 4))) (omega arith)
    ∙ drop_head ls body

digits-IsLine : (fuel n : ℕ) → IsLine (digits fuel n)
unfolding digits
digits-IsLine zero n = tt
digits-IsLine (suc fuel) n = elim (Bool-cases (ltb n 10)) [
  | inl h ↦ rw (digits, h) ((λ e. omega arith), (λ e. omega arith), tt)
  | inr h ↦
      rw (digits, h)
        (IsLine-append (digits fuel (n / 10)) ((48 + n % 10) ∷ []) (digits-IsLine fuel (n / 10))
          ((λ e. omega arith), (λ e. omega arith), tt))
]

-- Whether a row of bytes is a line, by a test.
is_line : List ℕ → Bool
is_line [] = true
is_line (c ∷ cs) = let rest = is_line cs in if c == 13 || c == 0 then false else rest

is_line-IsLine : (xs : List ℕ) → is_line xs ≡ true → IsLine xs
unfolding is_line
is_line-IsLine [] h = tt
is_line-IsLine (c ∷ cs) h =
    (ground (arith, h), ground (arith, h), is_line-IsLine cs (ground (arith, h)))

description-IsLine : (status : ℕ) → IsLine (get_http_status_description status)
unfolding get_http_status_description is_line
description-IsLine status = elim (Bool-cases (status == 200)) [
  | inl ok ↦ rw (get_http_status_description, ok) (is_line-IsLine ok_text refl)
  | inr other ↦ elim (Bool-cases (status == 404)) [
    | inl nf ↦ rw (get_http_status_description, other, nf) (is_line-IsLine not_found_text refl)
    | inr bad ↦ rw (get_http_status_description, other, bad) (is_line-IsLine unknown_text refl)
  ]
]

pub status_line-IsLine : (status : ℕ) → IsLine (status_line status)
unfolding status_line is_line
status_line-IsLine status =
    IsLine-append http_1_1 (digits max_digits status ++ (32 ∷ get_http_status_description status))
      (is_line-IsLine http_1_1 refl)
      (IsLine-append (digits max_digits status) (32 ∷ get_http_status_description status)
        (digits-IsLine max_digits status)
        ((λ e. omega arith), (λ e. omega arith), description-IsLine status))

pub length_line-IsLine : (size : ℕ) → IsLine (length_line size)
unfolding length_line is_line
length_line-IsLine size =
    IsLine-append content_length (58 ∷ 32 ∷ digits max_digits size)
      (is_line-IsLine content_length refl)
      (
        (λ e. omega arith),
        (λ e. omega arith),
        ((λ e. omega arith), (λ e. omega arith), digits-IsLine max_digits size),
      )
