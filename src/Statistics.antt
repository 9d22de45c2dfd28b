-- ===== src/Statistics.antt =====
-- Baselib/SnmpStatistic.cpp and include/tool/SnmpStatistic.h: named counters of 32 bits, with a buffer of
-- the values at the last snapshot. InterlockedIncrement and its kin are one step each.
pub mod Rounds
pub mod Exact
mod Tests
use iocp_netlib.Base.{
  ℕ, zero, suc, ◌+◌, ◌-◌, ◌*◌, ◌%◌, ◌^◌, Bool, true, false, Option, none, some, List, [], ◌∷◌, ◌++◌,
  length, get_or, replicate, ltb, ◌==◌, if◌then◌else◌, Text, text_eq,
}
use iocp_netlib.Http.Response.{digits, max_digits}

-- m_mapStatistics
abbrev pub Values : Type 0
Values = List (Text × ℕ)

-- m_pStatisticBuf holds `buffer`, or is null for [].
pub record CSnmpStatistic : Type 0 where
  pub values : Values
  pub names : List Text
  pub buffer : List ℕ
  pub buf_size : ℕ

abbrev pub construct : CSnmpStatistic
construct = record { values = []; names = []; buffer = []; buf_size = 0 }

unfoldable pub find : Text → Values → Option ℕ
find name [] = none
find name ((n, v) ∷ rest) = let found = find name rest in if text_eq n name then some v else found

-- m_mapStatistics[name] = v
unfoldable pub assign : Text → ℕ → Values → Values
assign name v [] = (name, v) ∷ []
assign name v ((n, w) ∷ rest) =
    let rest' = assign name v rest in if text_eq n name then ((n, v) ∷ rest) else ((n, w) ∷ rest')

-- m_mapStatistics[name].GetValue(); a name that is missing gets the value 0.
unfoldable pub get_value : Text → Values → ℕ × Values
get_value name vs = elim (find name vs) [ none ↦ (0, assign name 0 vs) | some v ↦ (v, vs) ]

abbrev pub set_at : ℕ → ℕ → List ℕ → List ℕ
set_at i v [] = []
set_at zero v (x ∷ xs) = v ∷ xs
set_at (suc i) v (x ∷ xs) = x ∷ set_at i v xs

-- The loop of operator[] over the names.
unfoldable pub define_loop : List Text → Values → Values
define_loop [] vs = vs
define_loop (n ∷ ns) vs = define_loop ns (assign n 0 vs)

-- operator[] with a list of names
unfoldable pub define : List Text → CSnmpStatistic → CSnmpStatistic
define names s = record {
  values = define_loop names [];
  names = names;
  buffer = replicate (length names) 0;
  buf_size = length names * 4;
}

-- operator[] with one name, and an operation of its SnmpItem; `none` when the assert fails.
unfoldable pub update : (ℕ → ℕ) → Text → CSnmpStatistic → Option CSnmpStatistic
update f name s = elim (find name s.values) [
  | none ↦ none
  | some v ↦ some (record s { values = assign name (f v) s.values })
]

-- operator++, operator-- and operator= of SnmpItem
abbrev pub increase : ℕ → ℕ
increase v = (v + 1) % 2 ^ 32

abbrev pub decrease : ℕ → ℕ
decrease v = (v + 2 ^ 32 - 1) % 2 ^ 32

abbrev pub put : ℕ → ℕ → ℕ
put value v = value % 2 ^ 32

unfoldable pub reset_loop : List Text → ℕ → Values → List ℕ → Values × List ℕ
reset_loop [] index vs buffer = (vs, buffer)
reset_loop (n ∷ ns) index vs buffer =
    reset_loop ns (index + 1) (assign n 0 vs) (set_at index 0 buffer)

-- Reset
unfoldable pub reset : CSnmpStatistic → CSnmpStatistic
reset s =
    let (vs, buffer) = reset_loop s.names 0 s.values s.buffer in
    record s { values = vs; buffer = buffer }

unfoldable pub snapshot_loop : List Text → ℕ → Values → List ℕ → Values × List ℕ
snapshot_loop [] index vs buffer = (vs, buffer)
snapshot_loop (n ∷ ns) index vs buffer =
    let (v, vs') = get_value n vs in snapshot_loop ns (index + 1) vs' (set_at index v buffer)

-- Snapshot
unfoldable pub snapshot : CSnmpStatistic → CSnmpStatistic
snapshot s =
    let (vs, buffer) = snapshot_loop s.names 0 s.values s.buffer in
    record s { values = vs; buffer = buffer }

-- "%s : %u\n"
abbrev pub line : Text → ℕ → Text
line name v = name ++ (32 ∷ 58 ∷ 32 ∷ (digits max_digits v ++ (10 ∷ [])))

-- `none` for a line that does not fit in the 255 bytes that sprintf_s is told, which ends the program.
unfoldable pub dump_loop : List Text → ℕ → List ℕ → Option Text
dump_loop [] index buffer = some []
dump_loop (n ∷ ns) index buffer =
    let text = line n (get_or buffer index 0) in
    elim (dump_loop ns (index + 1) buffer) [
      | none ↦ none
      | some rest ↦ if ltb (length text) 255 then some (text ++ rest) else none
    ]

-- dump
unfoldable pub dump : CSnmpStatistic → Option Text
dump s = dump_loop s.names 0 s.buffer

-- CNameList with a name, or with the names that end with the numbers below `times`.
unfoldable pub name_loop : Text → ℕ → ℕ → List Text
name_loop name zero i = []
name_loop name (suc left) i = (name ++ digits max_digits i) ∷ name_loop name left (i + 1)

unfoldable pub name_list : Text → ℕ → List Text
name_list name times = if times == 0 then name ∷ [] else name_loop name times 0

-- GetSize
abbrev pub get_size : CSnmpStatistic → ℕ
get_size s = s.buf_size
