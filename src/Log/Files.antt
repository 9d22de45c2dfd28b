-- ===== src/Log/Files.antt =====
-- Baselib/LogManager.cpp, SetLogLevel and _write: the files of the log manager. `opened` are the FILEs that
-- were opened and not closed; a null FILE is `none`.
use iocp_netlib.Base.{
  ℕ, ◌-◌, ◌*◌, ◌^◌, Bool, true, false, not, ◌&&◌, Option, none, some, List, [], ◌∷◌, ◌++◌, length,
  take, replicate, ltb, ◌==◌, if◌then◌else◌, Text, codes, text_eq,
}
use iocp_netlib.Http.Response.{digits}
use iocp_netlib.Log.{LogCell, log_level_fatal, log_level_error, log_level_info, log_level_debug}

pub record LogFileObject : Type 0 where
  pub handle : Option ℕ
  pub log_level : ℕ
  pub last_check_time : ℕ

-- m_mapNameToFileObject, the FILEs, and what was written to which of them, in order.
pub record LogFiles : Type 0 where
  pub table : List (Text × LogFileObject)
  pub opened : List ℕ
  pub written : List (ℕ × Text)

abbrev pub no_files : LogFiles
no_files = record { table = []; opened = []; written = [] }

unfoldable pub find_file : Text → List (Text × LogFileObject) → Option LogFileObject
find_file name [] = none
find_file name ((n, f) ∷ rest) =
    let found = find_file name rest in if text_eq n name then some f else found

-- std::map::insert: a name that is there keeps its object.
unfoldable pub insert_file :
    Text → LogFileObject → List (Text × LogFileObject) → List (Text × LogFileObject)
insert_file name f [] = (name, f) ∷ []
insert_file name f ((n, g) ∷ rest) =
    let rest' = insert_file name f rest in
    if text_eq n name then ((n, g) ∷ rest) else ((n, g) ∷ rest')

-- An assignment to the object of a name that is there
unfoldable pub put_file :
    Text → LogFileObject → List (Text × LogFileObject) → List (Text × LogFileObject)
put_file name f [] = []
put_file name f ((n, g) ∷ rest) =
    let rest' = put_file name f rest in if text_eq n name then ((n, f) ∷ rest) else ((n, g) ∷ rest')

-- SetLogLevel, with what _fsopen gives
unfoldable pub set_log_level : Text → ℕ → Option ℕ → ℕ → LogFiles → Bool × LogFiles
set_log_level name level file now fs = elim file [
  | none ↦ (false, fs)
  | some h ↦ (
    true,
    record fs {
      table =
          insert_file name (record { handle = some h; log_level = level; last_check_time = now })
            fs.table;
      opened = h ∷ fs.opened;
    },
  )
]

abbrev pub is_open : ℕ → List ℕ → Bool
is_open h [] = false
is_open h (x ∷ xs) = if x == h then true else is_open h xs

-- fclose
abbrev pub close : ℕ → List ℕ → List ℕ
close h [] = []
close h (x ∷ xs) = if x == h then xs else x ∷ close h xs

-- The local time
pub record Tm : Type 0 where
  pub year : ℕ
  pub month : ℕ
  pub day : ℕ
  pub hour : ℕ
  pub minute : ℕ
  pub second : ℕ

-- %0wd of a number that is not negative
abbrev pub padded : ℕ → ℕ → Text
padded width n = let text = digits 10 n in replicate (width - length text) 48 ++ text

-- %d of a number in 32 bits
abbrev pub signed_text : ℕ → Text
signed_text n = if ltb n (2 ^ 31) then digits 10 n else 45 ∷ digits 10 (2 ^ 32 - n)

-- GetLevelName
unfoldable pub get_level_name : ℕ → Text
get_level_name level =
    if level == log_level_fatal
    then codes "FATAL"
    else if level == log_level_error
    then codes "ERROR"
    else if level == log_level_info
    then codes " INFO"
    else if level == log_level_debug
    then codes "DEBUG"
    else []

-- What the system answers to _write: the time, the tick count, ftell, rename and _fsopen.
pub record WriteAnswers : Type 0 where
  pub time : Tm
  pub now : ℕ
  pub size : ℕ
  pub renamed : Bool
  pub reopened : Option ℕ

unfoldable pub date_text : Tm → Text
date_text t =
    padded 4 t.year
    ++ (45 ∷ padded 2 t.month
        ++ (45 ∷ padded 2 t.day
            ++ (32 ∷ padded 2 t.hour ++ (58 ∷ padded 2 t.minute ++ (58 ∷ padded 2 t.second)))))

-- The line, cut to the 10238 bytes that _snprintf_s has room for.
unfoldable pub line_text : WriteAnswers → LogCell → Text
line_text a c = take 10238 (
    91 ∷ date_text a.time
    ++ (93 ∷ 91 ∷ signed_text c.thread_id
        ++ (93 ∷ 91 ∷ digits 20 c.tick_time
            ++ (95 ∷ digits 20 a.now
                ++ (93 ∷ 91 ∷ signed_text c.log_level
                    ++ (58 ∷ get_level_name c.log_level
                        ++ (93 ∷ 32 ∷ c.content ++ (13 ∷ 10 ∷ []))))))))

-- The test for the check of the size, which is made every 10 seconds.
abbrev pub is_due : ℕ → LogFileObject → Bool
is_due now f = ltb f.last_check_time now && ltb (10 * 1000) (now - f.last_check_time)

-- The change of files for a FILE: the object and the open FILEs after it. `none` when ftell is called on a
-- null FILE or on one that is not open.
unfoldable pub rotate :
    WriteAnswers → LogFileObject → List ℕ → Option ℕ → Option (LogFileObject × List ℕ)
rotate a f opened none = none
rotate a f opened (some h) =
    let fresh : List ℕ = elim a.reopened [ none ↦ [] | some g ↦ g ∷ [] ] in
    if not (is_open h opened)
    then none
    else if not (ltb (10 * 1024 * 1024) a.size)
    then some (f, opened)
    else if a.renamed
    then some (record f { handle = a.reopened; last_check_time = a.now }, fresh ++ close h opened)
    else some (record f { last_check_time = a.now }, close h opened)

-- fwrite of a line, which is skipped for a null FILE; `none` for one that is not open.
unfoldable pub put_line : Text → LogFiles → Option ℕ → Option LogFiles
put_line text fs none = some fs
put_line text fs (some h) =
    if is_open h fs.opened
    then some (record fs { written = fs.written ++ ((h, text) ∷ []) })
    else none

-- _write for an object that it has found; `none` when it uses a FILE that is not open.
unfoldable pub write_found : WriteAnswers → LogCell → LogFiles → LogFileObject → Option LogFiles
write_found a c fs f =
    let rotated : Option LogFiles = elim (rotate a f fs.opened f.handle) [
      | none ↦ none
      | some (f', opened) ↦
          put_line (line_text a c)
            (record fs { table = put_file c.name f' fs.table; opened = opened }) f'.handle
    ] in
    if ltb f.log_level c.log_level
    then some fs
    else if is_due a.now f
    then rotated
    else put_line (line_text a c) fs f.handle

unfoldable pub write_cell : WriteAnswers → LogCell → LogFiles → Option LogFiles
write_cell a c fs = elim (find_file c.name fs.table) [
  | none ↦ some fs
  | some f ↦ write_found a c fs f
]

abbrev pub close_one : Option ℕ → List ℕ → Option (List ℕ)
close_one none opened = none
close_one (some h) opened = if is_open h opened then some (close h opened) else none

-- The loop of UnInit, which closes every FILE.
unfoldable pub close_all : List (Text × LogFileObject) → List ℕ → Option (List ℕ)
close_all [] opened = some opened
close_all ((n, f) ∷ rest) opened = elim (close_one f.handle opened) [
  | none ↦ none
  | some left ↦ close_all rest left
]

-- UnInit, behind the end of the thread
unfoldable pub uninit : LogFiles → Option LogFiles
uninit fs = elim (close_all fs.table fs.opened) [
  | none ↦ none
  | some opened ↦ some (record fs { table = []; opened = opened })
]
