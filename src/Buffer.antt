-- ===== src/Buffer.antt =====
-- include/tool/Buffer.h: a byte buffer that doubles. `block` is the memory that `data` points to, as
-- long as the capacity; `valid` is whether `data` is not null.
pub mod Growth
pub mod Refine
mod Tests
use iocp_netlib.Base.{
  ℕ, zero, suc, ◌+◌, ◌*◌, ◌%◌, ◌^◌, Bool, true, false, Option, none, some, List, [], ◌++◌, ltb, leb,
  length, take, drop, if◌then◌else◌, write_at,
}

pub record Buffer : Type 0 where
  pub valid : Bool
  pub block : List ℕ
  pub size : ℕ

-- operator new(nothrow): null, or a block of the size asked for.
abbrev pub New : Type 0
New = ℕ → Option (List ℕ)

unfoldable pub construct : New → ℕ → Buffer
construct new init_capacity = elim (new init_capacity) [
  | some block ↦ record { valid = true; block = block; size = 0 }
  | none ↦ record { valid = false; block = []; size = 0 }
]

-- while (new_capacity < required) new_capacity *= 2, in size_t
unfoldable pub grow : ℕ → ℕ → ℕ → Option ℕ
grow zero new_capacity required = none
grow (suc fuel) new_capacity required =
    let rest = grow fuel (new_capacity * 2 % 2 ^ 64) required in
    if ltb new_capacity required then rest else some new_capacity

-- Enough rounds for a size_t to double past 2 ^ 63.
abbrev pub rounds : ℕ
rounds = 64

unfoldable pub start_capacity : Buffer → ℕ
start_capacity b = if ltb 0 (length b.block) then length b.block else 1024

-- The new block, after the copy.
replace : Buffer → Option (List ℕ) → Bool × Buffer
replace b none = (false, b)
replace b (some block) = (
  true,
  record b {
    valid = true;
    block =
        if b.valid
        then (if ltb 0 b.size then write_at block 0 (take b.size b.block) else block)
        else block;
  },
)

-- `none` when the loop does not end within `rounds`.
unfoldable pub ensure_capacity : New → ℕ → Buffer → Option (Bool × Buffer)
unfolding replace
ensure_capacity new required b =
    if leb required (length b.block)
    then some (true, b)
    else (elim (grow rounds (start_capacity b) required) [
      | none ↦ none
      | some new_capacity ↦ some (replace b (new new_capacity))
    ])

unfoldable pub write : New → List ℕ → Buffer → Option (Bool × Buffer)
write new src b = elim (ensure_capacity new ((b.size + length src) % 2 ^ 64) b) [
  | none ↦ none
  | some (false, b') ↦ some (false, b')
  | some (true, b') ↦ some (
    true,
    record b' { block = write_at b'.block b'.size src; size = (b'.size + length src) % 2 ^ 64 },
  )
]

-- The offset of the room in the block, or null.
unfoldable pub get_buffer : New → ℕ → Buffer → Option (Option ℕ × Buffer)
get_buffer new need b = elim (ensure_capacity new ((b.size + need) % 2 ^ 64) b) [
  | none ↦ none
  | some (false, b') ↦ some (none, b')
  | some (true, b') ↦ some (some b'.size, record b' { size = (b'.size + need) % 2 ^ 64 })
]

unfoldable pub get_size : Buffer → ℕ
get_size b = b.size

unfoldable pub clear : Buffer → Buffer
clear b = record b { size = 0 }

unfoldable pub is_valid : Buffer → Bool
is_valid b = b.valid
