-- ===== src/Buffer/Tests.antt =====
-- include/tool/Buffer.h: five bytes written to a buffer of four, and one that finds no memory.
use iocp_netlib.Base.{
  ℕ, ◌+◌, ◌^◌, ◌<◌, ◌≡◌, refl, ◌⊎◌, true, false, none, some, [], ◌∷◌, ◌++◌, arith, ltb, length,
  take, replicate, length-replicate, if◌then◌else◌, write_at,
}
use iocp_netlib.Buffer.{
  Buffer, New, construct, grow, rounds, start_capacity, ensure_capacity, replace, write, get_buffer,
  get_size, is_valid, clear,
}
use iocp_netlib.Buffer.Growth.{Grown, grow-Grown}
use iocp_netlib.Buffer.Refine.{IsBuffer, Gives, contents, write-appends, get_buffer-reserves}

-- A heap that gives blocks of up to 100 bytes.
abbrev heap : New
heap n = if ltb n 100 then some (replicate n 0) else none

heap-Gives : Gives heap
heap-Gives n block e = ground (arith, length-replicate {A = ℕ} n 0)

abbrev three : Buffer
three = record { valid = true; block = 1 ∷ 2 ∷ 3 ∷ 0 ∷ []; size = 3 }

three-IsBuffer : IsBuffer three
three-IsBuffer = record { fits = omega arith; small = omega arith; backed = λ no. cc }

write_three :
    write heap (4 ∷ 5 ∷ []) three
    ≡ some (true, record { valid = true; block = 1 ∷ 2 ∷ 3 ∷ 4 ∷ 5 ∷ 0 ∷ 0 ∷ 0 ∷ []; size = 5 })
unfolding write ensure_capacity start_capacity grow replace write_at
write_three = refl

write_no_memory : write (λ _. none) (4 ∷ 5 ∷ []) three ≡ some (false, three)
unfolding write ensure_capacity start_capacity grow replace write_at
write_no_memory = refl

construct_no_memory : is_valid (construct heap 5120) ≡ false
unfolding is_valid construct
construct_no_memory = refl

clear-three : get_size (clear three) ≡ 0
unfolding get_size clear
clear-three = refl

-- A request of more than 2 ^ 63 bytes makes the capacity wrap to 0, and the loop goes on for ever.
wrapped : grow rounds 1024 (2 ^ 63 + 1) ≡ none
unfolding grow
wrapped = refl

grow-Grown_example : (c : ℕ) × (grow rounds 1024 5000 ≡ some c) × Grown 1024 5000 c
grow-Grown_example = grow-Grown 1024 5000 (omega arith) (omega arith) (omega arith)

write-appends_example :
    ((b' : Buffer) × (write heap (4 ∷ 5 ∷ []) three ≡ some (true, b'))
      × IsBuffer b'
      × (contents b' ≡ contents three ++ (4 ∷ 5 ∷ [])))
    ⊎ ((write heap (4 ∷ 5 ∷ []) three ≡ some (false, three))
        × (length three.block < three.size + 2)
        × ((n : ℕ) × (heap n ≡ none)))
write-appends_example =
    write-appends heap heap-Gives three three-IsBuffer (4 ∷ 5 ∷ []) (omega arith)

get_buffer-reserves_test :
    ((b' : Buffer) × (get_buffer heap 2 three ≡ some (some 3, b'))
      × IsBuffer b'
      × (take 3 (contents b') ≡ contents three)
      × (b'.size ≡ 5))
    ⊎ (get_buffer heap 2 three ≡ some (none, three))
get_buffer-reserves_test = get_buffer-reserves heap heap-Gives three three-IsBuffer 2 (omega arith)
