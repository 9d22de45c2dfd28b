-- ===== src/Base/Blocks.antt =====
-- Blocks of memory as lists of bytes: memcpy into a block, memmove to its front.
use Prim.Native.Nat.{ℕ, ◌+◌, ◌≤◌}
use mathlib.Core.Path.{◌≡◌, refl, sym, ◌∙◌}
use mathlib.Core.List.{List, ◌++◌, append_assoc}
use native.Mathlib.Omega.{arith}
use iocp_netlib.Base.Lists.{
  length, take, drop, length-append, length-take, length-drop, take-append_length, take-drop,
}

-- memcpy(block + off, src, len): a copy that stays inside the block keeps its length.
unfoldable pub write_at : List ℕ → ℕ → List ℕ → List ℕ
write_at block off src = take off block ++ (src ++ drop (off + length src) block)

-- memmove(block, block + from, n)
unfoldable pub move_front : List ℕ → ℕ → ℕ → List ℕ
unfolding write_at
move_front block from n = write_at block 0 (take n (drop from block))

pub length-write_at :
    (block : List ℕ) (off : ℕ) (src : List ℕ)
    → off + length src ≤ length block
    → length (write_at block off src) ≡ length block
unfolding write_at
length-write_at block off src h = omega (
  arith,
  length-append (take off block) (src ++ drop (off + length src) block),
  length-append src (drop (off + length src) block),
  length-take off block,
  length-drop (off + length src) block,
)

-- The used prefix grows by what is written at its end.
pub take-write_at :
    (block : List ℕ) (off : ℕ) (src : List ℕ)
    → off ≤ length block
    → take (off + length src) (write_at block off src) ≡ take off block ++ src
unfolding write_at
take-write_at block off src h = rw (← append_assoc) (
    take-append_length (off + length src) (take off block ++ src) _
      (omega (arith, length-append (take off block) src, length-take off block)))

module _ (block : List ℕ) (from n : ℕ) (fits : from + n ≤ length block) where
  moved : length (take n (drop from block)) ≡ n
  moved = omega (arith, length-take n (drop from block), length-drop from block)

  pub length-move_front : length (move_front block from n) ≡ length block
  unfolding move_front
  length-move_front = length-write_at block 0 (take n (drop from block)) (omega (arith, moved))

  pub take-move_front : take n (move_front block from n) ≡ drop from (take (from + n) block)
  unfolding move_front write_at
  take-move_front =
      take-append_length n (take n (drop from block)) _ (omega (arith, moved))
      ∙ sym (take-drop (from + n) n from block refl)
