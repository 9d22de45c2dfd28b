-- ===== src/Packet/Laws.antt =====
-- Baselib/PackageQueue.cpp, PacketWrite: what a write adds to a packet, and what it leaves alone.
use iocp_netlib.Base.{
  ℕ, zero, suc, ◌+◌, ◌-◌, ◌^◌, ◌%◌, ◌≤◌, ◌<◌, ◌≡◌, refl, ap, ap₂, ◌∙◌, ◌≢◌, ◌⊎◌, inl, true, false,
  List, [], ◌∷◌, ◌++◌, arith, length, get_or, le→ltb, lt→ltb,
}
use iocp_netlib.Memory.{Memory, store, copy_bytes, update_self}
use iocp_netlib.Packet.{header_size, write, read_bytes, payload}

pub read_bytes_cong :
    (f g : ℕ → ℕ) (a n : ℕ)
    → ((b : ℕ) → a ≤ b → b < a + n → f b ≡ g b)
    → read_bytes f a n ≡ read_bytes g a n
read_bytes_cong f g a zero h = refl
read_bytes_cong f g a (suc n) h =
    ap₂ ◌∷◌ (h a (omega arith) (omega arith))
      (read_bytes_cong f g (a + 1) n (λ b l m. h b (omega arith) (omega arith)))

pub read_bytes-add :
    (f : ℕ → ℕ) (a m n : ℕ) → read_bytes f a (m + n) ≡ read_bytes f a m ++ read_bytes f (a + m) n
read_bytes-add f a zero n = ap₂ (read_bytes f) (omega arith) (omega arith)
read_bytes-add f a (suc m) n =
    ap (read_bytes f a) (suc_add m n)
    ∙ ap (◌∷◌ (f a)) (
        read_bytes-add f (a + 1) m n
        ∙ ap (λ (b : ℕ). read_bytes f (a + 1) m ++ read_bytes f b n) (omega arith))
  where
    suc_add : (m n : ℕ) → suc m + n ≡ suc (m + n)
    suc_add m n = omega arith

pub length-read_bytes : (f : ℕ → ℕ) (a n : ℕ) → length (read_bytes f a n) ≡ n
length-read_bytes f a zero = refl
length-read_bytes f a (suc n) = ap suc (length-read_bytes f (a + 1) n)

read_bytes_list :
    (f : ℕ → ℕ) (src : List ℕ) (a : ℕ)
    → ((i : ℕ) → i < length src → f (a + i) ≡ get_or src i 0)
    → read_bytes f a (length src) ≡ src
read_bytes_list f [] a h = refl
read_bytes_list f (x ∷ xs) a h =
    ap₂ ◌∷◌ (ap f (omega arith) ∙ h 0 (omega arith))
      (read_bytes_list f xs (a + 1) (λ i l. ap f (omega arith) ∙ h (suc i) (omega arith)))

module _ (mem : Memory) (a : ℕ) (src : List ℕ) where
  copy_bytes_inside :
      (i : ℕ) → i < length src → (copy_bytes mem a src).byte (a + i) ≡ get_or src i 0
  unfolding copy_bytes
  copy_bytes_inside i h = rw (offset) (ground arith)
    where
      offset : a + i - a ≡ i
      offset = omega arith

  pub copy_bytes_outside :
      (b : ℕ) → (b < a) ⊎ (a + length src ≤ b) → (copy_bytes mem a src).byte b ≡ mem.byte b
  unfolding copy_bytes
  copy_bytes_outside b h = ground arith

  -- The copy is what lies at the address afterwards.
  pub read-copy_bytes : read_bytes (copy_bytes mem a src).byte a (length src) ≡ src
  read-copy_bytes = read_bytes_list (copy_bytes mem a src).byte src a copy_bytes_inside

  pub read-copy_bytes_before :
      (b n : ℕ) → b + n ≤ a → read_bytes (copy_bytes mem a src).byte b n ≡ read_bytes mem.byte b n
  read-copy_bytes_before b n h =
      read_bytes_cong _ mem.byte b n (λ c l m. copy_bytes_outside c (inl (omega arith)))

module _ (mem : Memory) (buf cap : ℕ) (src : List ℕ) (within : mem.word buf ≤ cap)
    (header : mem.word (buf + 8) ≡ cap) (small : cap < 2 ^ 63) (short : length src < 2 ^ 63) where
  no_wrap : (mem.word buf + length src) % 2 ^ 64 ≡ mem.word buf + length src
  no_wrap = omega arith

  copied : Memory
  copied = copy_bytes mem (buf + header_size + mem.word buf) src

  written : Memory
  unfolding copied
  written = store copied buf (mem.word buf + length src)

  written-word : written.word buf ≡ mem.word buf + length src
  unfolding written
  written-word = update_self copied.word buf (mem.word buf + length src)

  write_refused : cap < mem.word buf + length src → write mem buf src ≡ (false, mem)
  unfolding write
  write_refused h = rw (header, no_wrap, lt→ltb _ _ h)

  module _ (fits : mem.word buf + length src ≤ cap) where
    write_accepted : write mem buf src ≡ (true, written)
    unfolding write written
    write_accepted = rw (header, no_wrap, le→ltb _ _ fits)

    payload-written : payload written buf ≡ payload mem buf ++ src
    unfolding written
    payload-written =
        ap (read_bytes written.byte (buf + header_size)) written-word
        ∙ read_bytes-add written.byte (buf + header_size) (mem.word buf) (length src)
        ∙ ap₂ ◌++◌
            (read-copy_bytes_before mem (buf + header_size + mem.word buf) src (buf + header_size)
              (mem.word buf) (omega arith))
            (read-copy_bytes mem (buf + header_size + mem.word buf) src)

    same_bytes :
        (b : ℕ)
        → (b < buf + header_size) ⊎ (buf + header_size + cap ≤ b)
        → written.byte b ≡ mem.byte b
    unfolding written
    same_bytes b o = copy_bytes_outside mem (buf + header_size + mem.word buf) src b (omega arith)

  same_words : (a : ℕ) → a ≢ buf → written.word a ≡ mem.word a
  unfolding written copy_bytes
  same_words a ne = ground arith

  -- Write on a packet whose position is within its capacity, below 2 ^ 63 bytes. What does not fit is
  -- refused and changes nothing; what fits is appended to the payload, the position is still within
  -- the capacity, and no byte outside the packet's payload area and no word but the position changes.
  pub write_lem :
      (cap < mem.word buf + length src → write mem buf src ≡ (false, mem))
      × (mem.word buf + length src ≤ cap
          → (mem' : Memory) × (write mem buf src ≡ (true, mem'))
            × (payload mem' buf ≡ payload mem buf ++ src)
            × (mem'.word buf ≤ cap)
            × ((b : ℕ)
                → (b < buf + header_size) ⊎ (buf + header_size + cap ≤ b)
                → mem'.byte b ≡ mem.byte b)
            × ((a : ℕ) → a ≢ buf → mem'.word a ≡ mem.word a))
  write_lem = (
    write_refused,
    λ fits. (
      written,
      write_accepted fits,
      payload-written fits,
      rw written-word fits,
      same_bytes fits,
      same_words,
    ),
  )
