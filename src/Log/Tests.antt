-- ===== src/Log/Tests.antt =====
-- Runs of the models of Baselib/LogManager.cpp.
use iocp_netlib.Base.{◌≡◌, refl, arith, true, false, some, List, [], ◌∷◌, ◌++◌, codes}
use iocp_netlib.FixedPool.{FixedMemoryPool}
use iocp_netlib.PackageQueue.{PackageQueue}
use iocp_netlib.Http.Response.{digits}
use iocp_netlib.Log.{
  LogCell, write_v, write_line, thread_round, log_level_fatal, log_level_error, log_level_info,
}
use iocp_netlib.Log.Cells.{no_zero-NoZero}
use iocp_netlib.Log.Passing.{cell_of, write_v-thread_round}
use iocp_netlib.Log.Files.{
  LogFiles, no_files, find_file, insert_file, WriteAnswers, get_level_name, date_text, line_text,
  set_log_level, uninit,
}
use iocp_netlib.Log.Owned.{Call, sets, writes, run, run-uninit}

-- One element with room for a cell
abbrev pool : FixedMemoryPool
pool = record { pool = 1000; free_list = 1000; elem_size = 10304; capacity = 1; free_count = 1 }

abbrev queue : PackageQueue
queue = record {
  queue = [];
  sem = some 0;
  pool = some pool;
  mem = record { word = λ a. 0; byte = λ a. 0 };
}

write_v-thread_round_example :
    (q' : PackageQueue) × (write_v 7 1000 (codes "system.log") 2 (codes "failed") queue
      ≡ some (true, q'))
    × ((thread_round q').0 ≡ some (cell_of 7 1000 (codes "system.log") 2 (codes "failed")))
write_v-thread_round_example =
    write_v-thread_round 7 1000 (codes "system.log") 2 (codes "failed") queue pool (omega arith)
      (omega arith) (omega arith) (no_zero-NoZero (codes "system.log") refl)
      (no_zero-NoZero (codes "failed") refl) (omega arith) refl refl refl (λ e. omega arith)
      (omega arith) (omega arith)

abbrev noon : WriteAnswers
noon = record {
  time = record { year = 2024; month = 5; day = 6; hour = 12; minute = 0; second = 9 };
  now = 20000;
  size = 20000000;
  renamed = true;
  reopened = some 6;
}

abbrev cell : LogCell
cell = cell_of 7 19990 (codes "a.log") log_level_error (codes "x")

text :
    line_text noon cell ≡ codes "[2024-05-06 12:00:09][7][19990_20000][2:ERROR] x" ++ (13 ∷ 10 ∷ [])
unfolding line_text date_text digits get_level_name
text = refl

-- Write passes its text on as INFO, whatever the level it is given.
as_info :
    write_line 7 1000 (codes "a") log_level_fatal (codes "x") queue
    ≡ write_v 7 1000 (codes "a") log_level_info (codes "x") queue
unfolding write_line
as_info = refl

-- A file that grows past 10 MB is changed for a new one.
abbrev calls : List Call
calls =
    sets (codes "a.log") 4 (some 5) 0 ∷ writes noon cell ∷ sets (codes "a.log") 1 (some 8) 1 ∷ []

run-uninit_example :
    (fs : LogFiles) × (fs' : LogFiles) × (run calls no_files ≡ some fs) × (uninit fs ≡ some fs')
run-uninit_example = run-uninit calls (tt, ((refl, (6, refl)), (tt, tt)))

-- The second SetLogLevel for a name has no effect on its level, and its FILE is lost.
abbrev twice : LogFiles
twice =
    (set_log_level (codes "a.log") 1 (some 8) 1
      (set_log_level (codes "a.log") 4 (some 5) 0 no_files).1).1

kept_level :
    find_file (codes "a.log") twice.table
    ≡ some (record { handle = some 5; log_level = 4; last_check_time = 0 })
unfolding set_log_level insert_file find_file
kept_level = refl

abbrev set_up : LogFiles
set_up = (set_log_level (codes "a.log") 4 (some 5) 0 no_files).1

abbrev not_renamed : WriteAnswers
not_renamed = record noon { renamed = false }
