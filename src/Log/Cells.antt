-- ===== src/Log/Cells.antt =====
-- Baselib/LogManager.cpp: a LogCell is read back from its bytes.
use iocp_netlib.Base.{
  ℕ, zero, suc, ◌+◌, ◌-◌, ◌*◌, ◌/◌, ◌^◌, ◌<◌, ◌≤◌, ◌≡◌, ◌≢◌, refl, sym, ap, ◌∙◌, List, [], ◌∷◌,
  ◌++◌, arith, length, take, drop, replicate, Text, length-append, length-replicate,
  take-append_length, drop-append_length, take_all, ◌==◌, if◌then◌else◌, Bool, true, false, inl,
  inr, Bool-cases,
}
use iocp_netlib.Http.Split.{c_string}
use iocp_netlib.Log.{
  LogCell, cell_size, name_size, content_size, number_bytes, read_number, text_bytes, cell_bytes,
  read_cell,
}

length-number_bytes : (k n : ℕ) → length (number_bytes k n) ≡ k
length-number_bytes zero n = refl
length-number_bytes (suc k) n = ap suc (length-number_bytes k (n / 256))

abbrev bytes_bound : ℕ → ℕ
bytes_bound zero = 1
bytes_bound (suc k) = 256 * bytes_bound k

read_number_lem : (k n : ℕ) → n < bytes_bound k → read_number (number_bytes k n) ≡ n
read_number_lem zero n h = omega arith
read_number_lem (suc k) n h = let e = read_number_lem k (n / 256) (omega arith) in omega arith

-- A text holds no terminator.
abbrev pub NoZero : Text → Type 0
NoZero [] = Unit {0}
NoZero (c ∷ cs) = (c ≢ 0) × NoZero cs

abbrev pub no_zero : Text → Bool
no_zero [] = true
no_zero (c ∷ cs) = if c == 0 then false else no_zero cs

pub no_zero-NoZero : (t : Text) → no_zero t ≡ true → NoZero t
no_zero-NoZero [] h = tt
no_zero-NoZero (c ∷ cs) h = elim (Bool-cases (c == 0)) [
  | inl e ↦ absurd cc
  | inr e ↦ ((λ z. ground arith), no_zero-NoZero cs (rw e at h))
]

pub NoZero-take : (n : ℕ) (t : Text) → NoZero t → NoZero (take n t)
NoZero-take zero t h = tt
NoZero-take (suc n) [] h = tt
NoZero-take (suc n) (c ∷ cs) h = (h.0, NoZero-take n cs h.1)

nonzero_byte : (c : ℕ) → c ≢ 0 → (c == 0) ≡ false
nonzero_byte c h = ground arith

c_string_zeros : (k : ℕ) → c_string (replicate k 0) ≡ []
c_string_zeros zero = refl
c_string_zeros (suc k) = refl

c_string-text : (t : Text) (k : ℕ) → NoZero t → c_string (t ++ replicate k 0) ≡ t
c_string-text [] k h = c_string_zeros k
c_string-text (c ∷ cs) k h = rw (nonzero_byte c h.0, c_string-text cs k h.1) refl

length-text_bytes : (size : ℕ) (t : Text) → length t ≤ size → length (text_bytes size t) ≡ size
length-text_bytes size t h = omega (
  arith,
  length-append t (replicate (size - length t) 0),
  length-replicate {A = ℕ} (size - length t) 0,
)

-- The fields have the widths of their types, and the texts fit with their terminators.
pub record IsCell (c : LogCell) : Type 0 where
  pub thread_id : c.thread_id < 2 ^ 32
  pub tick_time : c.tick_time < 2 ^ 64
  pub log_level : c.log_level < 2 ^ 32
  pub name : NoZero c.name
  pub name_fits : length c.name < name_size
  pub content : NoZero c.content
  pub content_fits : length c.content < content_size

drop_past : (n m : ℕ) (xs ys : List ℕ) → n ≡ length xs → drop (n + m) (xs ++ ys) ≡ drop m ys
drop_past zero m [] ys h = let e : 0 + m ≡ m = omega arith in ap (λ (k : ℕ). drop k ys) e
drop_past zero m (x ∷ xs) ys h = absurd (omega arith)
drop_past (suc n) m [] ys h = absurd (omega arith)
drop_past (suc n) m (x ∷ xs) ys h =
    let e : suc n + m ≡ suc (n + m) = omega arith in
    ap (λ (k : ℕ). drop k (x ∷ (xs ++ ys))) e ∙ drop_past n m xs ys (omega arith)

same_cell :
    (b c : LogCell)
    → b.thread_id ≡ c.thread_id
    → b.tick_time ≡ c.tick_time
    → b.name ≡ c.name
    → b.log_level ≡ c.log_level
    → b.content ≡ c.content
    → b ≡ c
same_cell b c t k n l x = cc

module _ (c : LogCell) (v : IsCell c) where
  name_length : length (text_bytes name_size c.name) ≡ name_size
  name_length = length-text_bytes name_size c.name (omega (arith, v.name_fits))

  content_length : length (text_bytes content_size c.content) ≡ content_size
  content_length = length-text_bytes content_size c.content (omega (arith, v.content_fits))

  -- What lies behind the first two fields, and behind the name
  tail : List ℕ
  tail = number_bytes 4 c.log_level ++ text_bytes content_size c.content

  named : List ℕ
  unfolding tail
  named = text_bytes name_size c.name ++ tail

  length-named : length named ≡ 10276
  unfolding named tail
  length-named =
      length-append (text_bytes name_size c.name)
        (number_bytes 4 c.log_level ++ text_bytes content_size c.content)
      ∙ omega (arith, name_length, content_length)

  pub length-cell_bytes : length (cell_bytes c) ≡ cell_size
  unfolding cell_bytes named tail
  length-cell_bytes = omega (arith, length-named)

  read_name : c_string (take name_size named) ≡ c.name
  unfolding named
  read_name =
      ap c_string
        (take-append_length name_size (text_bytes name_size c.name) tail (sym name_length))
      ∙ c_string-text c.name (name_size - length c.name) v.name

  read_level : read_number (take 4 (drop 32 named)) ≡ c.log_level
  unfolding named tail
  read_level =
      ap (λ (bs : List ℕ). read_number (take 4 bs))
        (drop-append_length name_size (text_bytes name_size c.name) tail (sym name_length))
      ∙ read_number_lem 4 c.log_level v.log_level

  read_content : c_string (take content_size (drop 36 named)) ≡ c.content
  unfolding named tail
  read_content =
      ap (λ (bs : List ℕ). c_string (take content_size bs))
        (drop_past name_size 4 (text_bytes name_size c.name) tail (sym name_length))
      ∙ ap c_string (
          take_all content_size (text_bytes content_size c.content) (omega (arith, content_length)))
      ∙ c_string-text c.content (content_size - length c.content) v.content

  -- The bytes of a cell hold the cell.
  pub read_cell-cell_bytes : read_cell (cell_bytes c) ≡ c
  unfolding read_cell cell_bytes named tail
  read_cell-cell_bytes =
      same_cell (read_cell (cell_bytes c)) c (read_number_lem 4 c.thread_id v.thread_id)
        (read_number_lem 8 c.tick_time v.tick_time) read_name read_level read_content
