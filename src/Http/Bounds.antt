-- ===== src/Http/Bounds.antt =====
-- Netlib/TcpClientHttp.cpp, ParseHttpHeaders: it returns, and every header lies in the head of the
-- request.
use iocp_netlib.Base.{
  ℕ, zero, suc, ◌+◌, ◌-◌, ◌≤◌, ◌<◌, ◌≡◌, refl, sym, ap, subst, ◌∙◌, ◌⊎◌, inl, inr, true, none, some,
  List, [], ◌∷◌, ◌++◌, arith, length, take, drop, ltb, ◌==◌, Bool-cases, Option-cases, length-take,
  length-drop, drop_all, ltb→lt,
}
use iocp_netlib.Http.{
  HttpHeader, starts_with, strstr, memchr, spaces, crlf, blank_line, header_at, parse_lines,
  parse_http_headers,
}

starts_with-left : (p q s : List ℕ) → starts_with (p ++ q) s ≡ true → starts_with p s ≡ true
starts_with-left [] q s h = refl
starts_with-left (a ∷ p) q [] h = h
starts_with-left (a ∷ p) q (x ∷ xs) h =
    let rest = starts_with-left p q xs in ground (arith, h, rest)

-- strstr finds the first occurrence.
strstr-le :
    (pat s : List ℕ) (j : ℕ)
    → starts_with pat (drop j s) ≡ true
    → (k : ℕ) × (strstr pat s ≡ some k) × (k ≤ j)
strstr-le pat [] zero h = (0, rw h refl, omega arith)
strstr-le pat [] (suc j) h = (0, rw h refl, omega arith)
strstr-le pat (x ∷ xs) zero h = (0, rw h refl, omega arith)
strstr-le pat (x ∷ xs) (suc j) h = elim (Bool-cases (starts_with pat (x ∷ xs))) [
  | inl e ↦ (0, rw e refl, omega arith)
  | inr e ↦ let (k, run, le) = strstr-le pat xs j h in (suc k, rw (e, run) refl, omega arith)
]

-- What it finds is there.
pub strstr-starts_with :
    (pat s : List ℕ) (k : ℕ) → strstr pat s ≡ some k → starts_with pat (drop k s) ≡ true
strstr-starts_with pat [] k h = elim (Bool-cases (starts_with pat [])) [
  | inl e ↦
      let z : k ≡ 0 = ground (arith, h, e) in
      subst (λ n. starts_with pat (drop n []) ≡ true) (sym z) e
  | inr e ↦ absurd (ground (arith, h, e))
]
strstr-starts_with pat (x ∷ xs) k h = elim (Bool-cases (starts_with pat (x ∷ xs))) [
  | inl e ↦
      let z : k ≡ 0 = ground (arith, h, e) in
      subst (λ n. starts_with pat (drop n (x ∷ xs)) ≡ true) (sym z) e
  | inr e ↦ elim (Option-cases (strstr pat xs)) [
    | inl run ↦ absurd (ground (arith, h, e, run))
    | inr (j, run) ↦
        let z : k ≡ suc j = ground (arith, h, e, run) in
        subst (λ n. starts_with pat (drop n (x ∷ xs)) ≡ true) (sym z)
          (strstr-starts_with pat xs j run)
  ]
]

pub memchr-lt : (c : ℕ) (s : List ℕ) (k : ℕ) → memchr c s ≡ some k → k < length s
memchr-lt c [] k h = absurd (ground (arith, h))
memchr-lt c (x ∷ xs) k h = elim (Bool-cases (x == c)) [
  | inl e ↦ ground (arith, h, e)
  | inr e ↦ elim (Option-cases (memchr c xs)) [
    | inl run ↦ absurd (ground (arith, h, e, run))
    | inr (j, run) ↦
        let below = memchr-lt c xs j run in
        let z : k ≡ suc j = ground (arith, h, e, run) in omega arith
  ]
]

spaces-le : (s : List ℕ) → spaces s ≤ length s
spaces-le [] = omega arith
spaces-le (x ∷ xs) = let rest = spaces-le xs in ground (arith, rest)

pub drop-drop : (m n k : ℕ) (s : List ℕ) → k ≡ n + m → drop m (drop n s) ≡ drop k s
drop-drop m zero k s e = ap (λ n. drop n s) (omega (arith, e))
drop-drop m (suc n) k [] e = drop_all m [] (omega arith) ∙ sym (drop_all k [] (omega arith))
drop-drop m (suc n) zero (x ∷ s) e = absurd (omega (arith, e))
drop-drop m (suc n) (suc k) (x ∷ s) e = drop-drop m n k s (omega (arith, e))

-- The key ends before the value begins, and the value ends at the latest at `end`.
abbrev pub InHead : ℕ → HttpHeader → Type 0
InHead end h = (h.key + h.key_len < h.value) × (h.value + h.value_len ≤ end)

abbrev pub AllInHead : ℕ → List HttpHeader → Type 0
AllInHead end [] = Unit {0}
AllInHead end (h ∷ hs) = InHead end h × AllInHead end hs

module _ (text : List ℕ) (end : ℕ) (found : starts_with blank_line (drop end text) ≡ true) where
  -- From a line before the end, the next line end is at the end at the latest.
  line_end : (p : ℕ) → p < end → (k : ℕ) × (strstr crlf (drop p text) ≡ some k) × (p + k ≤ end)
  line_end p below =
      let here : starts_with crlf (drop end text) ≡ true =
        starts_with-left crlf crlf (drop end text) found in
      let there : starts_with crlf (drop (end - p) (drop p text)) ≡ true =
        subst (λ s. starts_with crlf s ≡ true) (sym (drop-drop (end - p) p end text (omega arith)))
          here in
      let (k, run, le) = strstr-le crlf (drop p text) (end - p) there in (k, run, omega arith)

  header-InHead :
      (p k c : ℕ)
      → p + k ≤ end
      → memchr 58 (take k (drop p text)) ≡ some c
      → InHead end (header_at text p k c)
  header-InHead p k c le colon =
      let short = memchr-lt 58 (take k (drop p text)) c colon in
      let blanks = spaces-le (drop (c + 1) (take k (drop p text))) in
      (
        omega arith,
        omega (arith, length-take k (drop p text), length-drop (c + 1) (take k (drop p text))),
      )

  pub parse_lines-AllInHead :
      (fuel p : ℕ)
      → 0 < fuel
      → end < p + fuel
      → (hs : List HttpHeader) × (parse_lines fuel text end p ≡ some hs) × AllInHead end hs
  unfolding parse_lines
  parse_lines-AllInHead zero p some_left enough = absurd (omega (arith, some_left))
  parse_lines-AllInHead (suc fuel) p some_left enough = elim (Bool-cases (ltb p end)) [
    | inr e ↦ ([], rw e refl, tt)
    | inl e ↦
        let below = ltb→lt _ _ e in
        let (k, run, le) = line_end p below in
        let (hs, rest, ok) = parse_lines-AllInHead fuel (p + k + 2) (omega arith) (omega arith) in
        elim (Option-cases (memchr 58 (take k (drop p text)))) [
          | inl colon ↦ (hs, rw (e, run, rest, colon) refl, ok)
          | inr (c, colon) ↦ (
            header_at text p k c ∷ hs,
            rw (e, run, rest, colon) refl,
            (header-InHead p k c le colon, ok),
          )
        ]
  ]

-- ParseHttpHeaders on any C string: it returns. It answers false exactly when the string has no blank
-- line; otherwise headerSize is the offset behind the first blank line, and of each header the key ends
-- before its value begins, and the value ends before the blank line.
pub parse_http_headers-AllInHead :
    (text : List ℕ)
    → ((strstr blank_line text ≡ none) × (parse_http_headers text ≡ some none))
      ⊎ ((end : ℕ) × (hs : List HttpHeader) × (strstr blank_line text ≡ some end)
          × (starts_with blank_line (drop end text) ≡ true)
          × (parse_http_headers text ≡ some (some (hs, end + 4)))
          × AllInHead end hs)
unfolding parse_http_headers
parse_http_headers-AllInHead text = elim (Option-cases (strstr blank_line text)) [
  | inl e ↦ inl (e, rw (e, parse_http_headers) refl)
  | inr (end, e) ↦
      let found = strstr-starts_with blank_line text end e in
      let (first, line, le) =
        strstr-le crlf text end (starts_with-left crlf crlf (drop end text) found) in
      let (hs, run, ok) =
        parse_lines-AllInHead text end found (suc end) (first + 2) (omega arith) (omega arith) in
      inr (end, hs, e, found, rw (e, parse_http_headers, line, run) refl, ok)
]
