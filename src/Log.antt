-- ===== src/Log.antt =====
-- Baselib/LogManager.cpp and include/tool/LogManager.h: log lines pass through a packet queue to one thread,
-- which writes them to files. A text is the bytes of a C string before its terminator.
pub mod Cells
pub mod Passing
pub mod Files
pub mod Table
pub mod Owned
mod Tests
use iocp_netlib.Base.{
  ℕ, zero, suc, ◌+◌, ◌-◌, ◌*◌, ◌/◌, ◌%◌, ◌^◌, Bool, true, false, Option, none, some, List, [], ◌∷◌,
  ◌++◌, length, take, drop, replicate, ltb, if◌then◌else◌, Text,
}
use iocp_netlib.Http.Split.{c_string}
use iocp_netlib.Memory.{Memory}
use iocp_netlib.Packet.{write, get_data_length, get_buffer, read_bytes}
use iocp_netlib.PackageQueue.{PackageQueue, alloc_write_packet, push, pop, release}

abbrev pub log_level_fatal : ℕ
log_level_fatal = 1

abbrev pub log_level_error : ℕ
log_level_error = 2

abbrev pub log_level_info : ℕ
log_level_info = 3

abbrev pub log_level_debug : ℕ
log_level_debug = 4

pub record LogCell : Type 0 where
  pub thread_id : ℕ
  pub tick_time : ℕ
  pub name : Text
  pub log_level : ℕ
  pub content : Text

-- sizeof of the packed struct, of its name and of its content
abbrev pub cell_size : ℕ
cell_size = 10288

abbrev pub name_size : ℕ
name_size = 32

abbrev pub content_size : ℕ
content_size = 10240

-- A number in the given number of bytes, and back
abbrev pub number_bytes : ℕ → ℕ → List ℕ
number_bytes zero n = []
number_bytes (suc k) n = (n % 256) ∷ number_bytes k (n / 256)

abbrev pub read_number : List ℕ → ℕ
read_number [] = 0
read_number (b ∷ bs) = b + 256 * read_number bs

-- A zeroed buffer with a text at its start
abbrev pub text_bytes : ℕ → Text → List ℕ
text_bytes size t = t ++ replicate (size - length t) 0

-- The bytes of a LogCell, and the LogCell that lies in some bytes
unfoldable pub cell_bytes : LogCell → List ℕ
cell_bytes c =
    number_bytes 4 c.thread_id
    ++ (number_bytes 8 c.tick_time
        ++ (text_bytes name_size c.name
            ++ (number_bytes 4 c.log_level ++ text_bytes content_size c.content)))

unfoldable pub read_cell : List ℕ → LogCell
read_cell bytes = record {
  thread_id = read_number (take 4 bytes);
  tick_time = read_number (take 8 (drop 4 bytes));
  name = c_string (take name_size (drop 12 bytes));
  log_level = read_number (take 4 (drop 44 bytes));
  content = c_string (take content_size (drop 48 bytes));
}

-- The LogCell that WriteV fills, with the formatted text; vsprintf_s ends the program, `none`, when the text
-- does not fit.
unfoldable pub make_cell : ℕ → ℕ → Text → ℕ → Text → Option LogCell
make_cell thread_id tick_time name log_level text =
    if ltb (length text) (content_size - 1)
    then some (record {
      thread_id = thread_id;
      tick_time = tick_time;
      name = take (name_size - 1) name;
      log_level = log_level;
      content = text;
    })
    else none

-- The part of WriteV behind the LogCell.
unfoldable pub queue_cell : LogCell → Option ℕ × PackageQueue → Bool × PackageQueue
queue_cell c (none, q) = (false, q)
queue_cell c (some buf, q) =
    let (_, mem) = write q.mem buf (cell_bytes c) in push buf (record q { mem = mem })

-- WriteV
unfoldable pub write_v : ℕ → ℕ → Text → ℕ → Text → PackageQueue → Option (Bool × PackageQueue)
write_v thread_id tick_time name log_level text q =
    elim (make_cell thread_id tick_time name log_level text) [
      | none ↦ none
      | some c ↦ some (queue_cell c (alloc_write_packet q))
    ]

-- Write, which does not pass its level on.
unfoldable pub write_line : ℕ → ℕ → Text → ℕ → Text → PackageQueue → Option (Bool × PackageQueue)
write_line thread_id tick_time name log_level text q =
    write_v thread_id tick_time name log_level_info text q

-- The cell for _write in a packet that holds at least `size` bytes, the sizeof of a LogCell.
unfoldable pub packet_cell : ℕ → ℕ → Memory → Option LogCell
packet_cell size buf mem =
    if ltb (get_data_length mem buf) size
    then none
    else some (read_cell (read_bytes mem.byte (get_buffer buf) size))

-- A round of ThreadProc while the manager is not stopped: the cell for _write, and the queue after the
-- packet's destructor.
unfoldable pub thread_round : PackageQueue → Option LogCell × PackageQueue
thread_round q =
    let (_, packet, q') = pop q in
    elim packet [
      | none ↦ (none, q')
      | some buf ↦ (packet_cell cell_size buf q'.mem, release buf q')
    ]
