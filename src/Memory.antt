-- ===== src/Memory.antt =====
-- The memory that the pools and queues share: the words at the addresses that the code reads and
-- writes as pointers or sizes, and the bytes of the payloads. A pool's link lies in the first word of
-- a free block, a packet's header in the first two words, and its payload behind them, so no address
-- is used both ways as long as the writes stay inside their block.
use iocp_netlib.Base.{
  ℕ, ◌+◌, ◌≡◌, ◌≢◌, ltb, leb, ◌&&◌, ◌-◌, List, get_or, length, ◌==◌, if◌then◌else◌, arith,
}

pub record Memory : Type 0 where
  pub word : ℕ → ℕ
  pub byte : ℕ → ℕ

abbrev pub update : (ℕ → ℕ) → ℕ → ℕ → ℕ → ℕ
update f a v b = if a == b then v else f b

abbrev pub store : Memory → ℕ → ℕ → Memory
store mem a v = record mem { word = update mem.word a v }

-- memcpy(a, src, length src)
unfoldable pub copy_bytes : Memory → ℕ → List ℕ → Memory
copy_bytes mem a src = record mem {
  byte = λ b. if leb a b && ltb b (a + length src) then get_or src (b - a) 0 else mem.byte b;
}

pub update_other : (w : ℕ → ℕ) (a v b : ℕ) → a ≢ b → update w a v b ≡ w b
update_other w a v b ne = ground arith

pub update_self : (w : ℕ → ℕ) (a v : ℕ) → update w a v a ≡ v
update_self w a v = ground arith
