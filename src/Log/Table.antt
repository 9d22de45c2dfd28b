-- ===== src/Log/Table.antt =====
-- Baselib/LogManager.cpp: the FILEs that the table of the log manager holds, and those that are open.
use iocp_netlib.Base.{
  ℕ, ◌+◌, ◌≤◌, ◌<◌, ◌≡◌, refl, subst, inl, inr, true, Option, none, some, List, [], ◌∷◌, arith,
  ◌==◌, if◌then◌else◌, Bool-cases, Text, text_eq,
}
use iocp_netlib.Log.Files.{LogFileObject, find_file, insert_file, put_file, is_open, close}

abbrev pub Table : Type 0
Table = List (Text × LogFileObject)

abbrev pub one : ℕ → ℕ → ℕ
one x h = if x == h then 1 else 0

abbrev pub count : ℕ → List ℕ → ℕ
count h [] = 0
count h (x ∷ xs) = one x h + count h xs

-- How often a FILE is in an object, and in the table
abbrev pub holds : ℕ → LogFileObject → ℕ
holds h f = elim f.handle [ none ↦ 0 | some x ↦ one x h ]

abbrev pub uses : ℕ → Table → ℕ
uses h [] = 0
uses h ((n, f) ∷ rest) = holds h f + uses h rest

-- No object has a null FILE.
abbrev pub AllSome : Table → Type 0
AllSome [] = Unit {0}
AllSome ((n, f) ∷ rest) = ((x : ℕ) × (f.handle ≡ some x)) × AllSome rest

pub count-close : (h k : ℕ) (xs : List ℕ) → count h xs ≤ count h (close k xs) + one k h
count-close h k [] = omega arith
count-close h k (x ∷ xs) = ground (arith, count-close h k xs)

pub is_open-count : (h : ℕ) (xs : List ℕ) → 0 < count h xs → is_open h xs ≡ true
is_open-count h [] p = absurd (omega arith)
is_open-count h (x ∷ xs) p = ground (arith, is_open-count h xs)

pub one_self : (h : ℕ) → one h h ≡ 1
one_self h = ground arith

-- Every FILE of the table is open, as often as the table holds it.
pub record IsOwned (table : Table) (opened : List ℕ) : Type 0 where
  pub all_some : AllSome table
  pub open_enough : (h : ℕ) → uses h table ≤ count h opened

same_object : (g f : LogFileObject) → ◌≡◌ {A = Option LogFileObject} (some g) (some f) → g ≡ f
same_object g f e = cc

find_file-uses :
    (name : Text) (table : Table) (f : LogFileObject)
    → find_file name table ≡ some f
    → (h : ℕ) → holds h f ≤ uses h table
unfolding find_file
find_file-uses name [] f e h = absurd cc
find_file-uses name ((n, g) ∷ rest) f e h = elim (Bool-cases (text_eq n name)) [
  | inl b ↦
      subst (λ (x : LogFileObject). holds h x ≤ holds h g + uses h rest)
        (same_object g f (rw b at e)) (omega arith)
  | inr b ↦ let deep = find_file-uses name rest f (rw b at e) h in omega arith
]

uses-put_file :
    (name : Text) (table : Table) (f f' : LogFileObject)
    → find_file name table ≡ some f
    → (h : ℕ) → uses h (put_file name f' table) + holds h f ≡ uses h table + holds h f'
unfolding find_file put_file
uses-put_file name [] f f' e h = absurd cc
uses-put_file name ((n, g) ∷ rest) f f' e h = elim (Bool-cases (text_eq n name)) [
  | inl b ↦ rw b (
      subst
        (λ (x : LogFileObject).
          holds h f' + uses h rest + holds h x ≡ holds h g + uses h rest + holds h f')
        (same_object g f (rw b at e)) (omega arith))
  | inr b ↦ let deep = uses-put_file name rest f f' (rw b at e) h in rw b (omega arith)
]

AllSome-put_file :
    (name : Text) (table : Table) (f : LogFileObject)
    → (x : ℕ) × (f.handle ≡ some x)
    → AllSome table
    → AllSome (put_file name f table)
unfolding put_file
AllSome-put_file name [] f s h = tt
AllSome-put_file name ((n, g) ∷ rest) f s h = elim (Bool-cases (text_eq n name)) [
  | inl b ↦ rw b (s, h.1)
  | inr b ↦ rw b (h.0, AllSome-put_file name rest f s h.1)
]

find_file-handle :
    (name : Text) (table : Table) (f : LogFileObject)
    → AllSome table
    → find_file name table ≡ some f
    → (x : ℕ) × (f.handle ≡ some x)
unfolding find_file
find_file-handle name [] f s e = absurd cc
find_file-handle name ((n, g) ∷ rest) f s e = elim (Bool-cases (text_eq n name)) [
  | inl b ↦
      subst (λ (o : LogFileObject). (x : ℕ) × (o.handle ≡ some x)) (same_object g f (rw b at e)) s.0
  | inr b ↦ find_file-handle name rest f s.1 (rw b at e)
]

pub insert_file-IsOwned :
    (name : Text) (f : LogFileObject) (x : ℕ) (table : Table) (opened : List ℕ)
    → f.handle ≡ some x
    → IsOwned table opened
    → IsOwned (insert_file name f table) (x ∷ opened)
unfolding insert_file
insert_file-IsOwned name f x table opened has v = record {
  all_some = some_in table v.all_some;
  open_enough = λ h. le_trans _ _ _ (uses_in table h) (add_one h (v.open_enough h));
}
  where
    le_trans : (a b c : ℕ) → a ≤ b → b ≤ c → a ≤ c
    le_trans a b c p q = omega arith

    add_one : (h : ℕ) {a b : ℕ} → a ≤ b → one x h + a ≤ one x h + b
    add_one h p = omega arith

    some_in : (t : Table) → AllSome t → AllSome (insert_file name f t)
    some_in [] s = ((x, has), tt)
    some_in ((n, g) ∷ rest) s = elim (Bool-cases (text_eq n name)) [
      | inl b ↦ rw b s
      | inr b ↦ rw b (s.0, some_in rest s.1)
    ]

    uses_in : (t : Table) (h : ℕ) → uses h (insert_file name f t) ≤ one x h + uses h t
    uses_in [] h = rw has (omega arith)
    uses_in ((n, g) ∷ rest) h = elim (Bool-cases (text_eq n name)) [
      | inl b ↦ rw b (omega arith)
      | inr b ↦ let deep = uses_in rest h in rw b (omega arith)
    ]

-- An object in the table has an open FILE.
pub owned_handle :
    (name : Text) (table : Table) (opened : List ℕ) (f : LogFileObject)
    → IsOwned table opened
    → find_file name table ≡ some f
    → (x : ℕ) × (f.handle ≡ some x) × (0 < count x opened)
owned_handle name table opened f v e =
    let (x, has) = find_file-handle name table f v.all_some e in
    let used = find_file-uses name table f e x in
    let enough = v.open_enough x in
    let once : holds x f ≡ 1 = rw has (one_self x) in (x, has, omega arith)

-- The table with the object that follows a change of files is owned.
pub replaced-IsOwned :
    (name : Text) (table : Table) (opened : List ℕ) (f f' : LogFileObject) (x g : ℕ)
    → IsOwned table opened
    → find_file name table ≡ some f
    → f.handle ≡ some x
    → f'.handle ≡ some g
    → IsOwned (put_file name f' table) (g ∷ close x opened)
replaced-IsOwned name table opened f f' x g v e has has' = record {
  all_some = AllSome-put_file name table f' (g, has') v.all_some;
  open_enough = λ h.
      let moved = uses-put_file name table f f' e h in
      let left = count-close h x opened in
      let enough = v.open_enough h in
      let old : holds h f ≡ one x h = rw has refl in
      let new : holds h f' ≡ one g h = rw has' refl in omega arith;
}

pub kept-IsOwned :
    (name : Text) (table : Table) (opened : List ℕ) (f : LogFileObject) (x : ℕ)
    → IsOwned table opened
    → find_file name table ≡ some f
    → f.handle ≡ some x
    → IsOwned (put_file name f table) opened
kept-IsOwned name table opened f x v e has = record {
  all_some = AllSome-put_file name table f (x, has) v.all_some;
  open_enough = λ h.
      let moved = uses-put_file name table f f e h in let enough = v.open_enough h in omega arith;
}
