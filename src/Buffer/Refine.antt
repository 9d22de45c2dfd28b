-- ===== src/Buffer/Refine.antt =====
-- include/tool/Buffer.h: a buffer is a list of bytes.
use iocp_netlib.Base.{
  ℕ, ◌+◌, ◌%◌, ◌^◌, ◌≤◌, ◌<◌, ◌≡◌, refl, ap, sym, ◌∙◌, subst, ◌⊎◌, inl, inr, Bool, true, false,
  none, some, List, ◌++◌, arith, ltb, ltb→le, leb, leb→le, length, take, Bool-cases, Option-cases,
  write_at, length-write_at, take-write_at, take-take, length-take,
}
use iocp_netlib.Buffer.{replace, Buffer, New, start_capacity, ensure_capacity, write, get_buffer}
use iocp_netlib.Buffer.Growth.{grow-Grown}

abbrev pub contents : Buffer → List ℕ
contents b = take b.size b.block

-- The used bytes lie in the block, and without memory there are none.
pub record IsBuffer (b : Buffer) : Type 0 where
  pub fits : b.size ≤ length b.block
  pub small : length b.block < 2 ^ 64
  pub backed : b.valid ≡ false → length b.block ≡ 0

abbrev pub Gives : New → Type 0
Gives new = (n : ℕ) (block : List ℕ) → new n ≡ some block → length block ≡ n

-- Room was made, with the contents kept; or the memory was too small and operator new failed, and
-- nothing has changed.
abbrev pub Ensured : New → ℕ → Buffer → Type 0
Ensured new required b =
    ((b' : Buffer) × (ensure_capacity new required b ≡ some (true, b'))
      × IsBuffer b'
      × (contents b' ≡ contents b)
      × (b'.size ≡ b.size)
      × (required ≤ length b'.block))
    ⊎ ((ensure_capacity new required b ≡ some (false, b))
        × (length b.block < required)
        × ((n : ℕ) × (new n ≡ none)))

abbrev Replaced : Buffer → List ℕ → Bool × Buffer → Type 0
Replaced b block (ok, b') =
    (ok ≡ true)
    × (contents b' ≡ contents b)
    × (b'.size ≡ b.size)
    × (length b'.block ≡ length block)
    × (b'.valid ≡ true)

-- The copy of ensureCapacity into a new block.
module _ (b : Buffer) (v : IsBuffer b) (block : List ℕ) (room : b.size ≤ length block) where
  used : length (take b.size b.block) ≡ b.size
  used = omega (arith, length-take b.size b.block, v.fits)

  copied : List ℕ
  copied = write_at block 0 (take b.size b.block)

  length-copied : length copied ≡ length block
  unfolding copied
  length-copied = length-write_at block 0 (take b.size b.block) (omega (arith, used, room))

  take-copied : take b.size copied ≡ take b.size b.block
  unfolding copied
  take-copied =
      subst (λ n. take n copied ≡ take b.size b.block) (omega (arith, used))
        (take-write_at block 0 (take b.size b.block) (omega arith))

  nothing_used : b.size ≡ 0 → (xs ys : List ℕ) → take b.size xs ≡ take b.size ys
  nothing_used z xs ys = rw z refl

  replace-Replaced : Replaced b block (replace b (some block))
  unfolding replace copied
  replace-Replaced = elim (Bool-cases b.valid) [
    | inl h ↦ elim (Bool-cases (ltb 0 b.size)) [
      | inl p ↦ rw (h, p) (refl, take-copied, refl, length-copied, refl)
      | inr p ↦
          let z : b.size ≡ 0 = omega (arith, ltb→le 0 b.size p) in
          rw (h, p) (refl, nothing_used z block b.block, refl, refl, refl)
    ]
    | inr h ↦
        let z : b.size ≡ 0 = omega (arith, v.backed h, v.fits) in
        rw h (refl, nothing_used z block b.block, refl, refl, refl)
  ]

start-pos : (b : Buffer) → 0 < start_capacity b
unfolding start_capacity
start-pos b = ground arith

start-small : (b : Buffer) → IsBuffer b → start_capacity b < 2 ^ 64
unfolding start_capacity
start-small b v = ground (arith, v.small)

leb→lt : (a b : ℕ) → leb a b ≡ false → b < a
leb→lt a b h = ground arith

module _ (new : New) (gives : Gives new) (b : Buffer) (v : IsBuffer b) where
  grown :
      (required : ℕ)
      → required ≤ 2 ^ 63
      → length b.block < required
      → leb required (length b.block) ≡ false
      → Ensured new required b
  unfolding ensure_capacity
  grown required le lt h =
      let (c, run, (ge, fits, _)) =
        grow-Grown (start_capacity b) required (start-pos b) (start-small b v) le in
      elim (Option-cases (new c)) [
        | inl e ↦ inr (rw (h, run, e) refl, lt, (c, e))
        | inr (block, e) ↦
            let room : b.size ≤ length block = omega (arith, gives c block e, v.fits, lt, ge) in
            let (ok, same, size, len, valid) = replace-Replaced b v block room in
            let b' : Buffer = (replace b (some block)).1 in
            inl (
              b',
              rw (h, run, e) (ap (λ o. some (o, b')) ok),
              record {
                fits = omega (arith, size, len, room);
                small = omega (arith, len, gives c block e, fits);
                backed = λ no. cc;
              },
              same,
              size,
              omega (arith, len, gives c block e, ge),
            )
      ]

  ensure-Ensured : (required : ℕ) → required ≤ 2 ^ 63 → b.size ≤ required → Ensured new required b
  unfolding ensure_capacity
  ensure-Ensured required le more = elim (Bool-cases (leb required (length b.block))) [
    | inl h ↦ inl (b, rw h refl, v, refl, refl, leb→le required (length b.block) h)
    | inr h ↦ grown required le (leb→lt required (length b.block) h) h
  ]

  short : (n : ℕ) → n ≤ 2 ^ 63 → n % 2 ^ 64 ≡ n
  short n le = omega arith

  appended :
      (src : List ℕ) (b' : Buffer)
      → b.size + length src ≤ 2 ^ 63
      → IsBuffer b'
      → contents b' ≡ contents b
      → b'.size ≡ b.size
      → b.size + length src ≤ length b'.block
      → let b'' : Buffer = record b' {
        block = write_at b'.block b'.size src;
        size = (b'.size + length src) % 2 ^ 64;
      } in
        IsBuffer b'' × (contents b'' ≡ contents b ++ src)
  appended src b' le v' same size room =
      let fits : b'.size + length src ≤ length b'.block = omega (arith, size, room) in
      let len : length (write_at b'.block b'.size src) ≡ length b'.block =
        length-write_at b'.block b'.size src fits in
      let no_wrap : (b'.size + length src) % 2 ^ 64 ≡ b'.size + length src =
        short (b'.size + length src) (omega (arith, size, le)) in
      (
        record {
          fits = omega (arith, len, no_wrap, fits);
          small = omega (arith, len, v'.small);
          backed = λ no. omega (arith, len, v'.backed no);
        },
        ap (λ n. take n (write_at b'.block b'.size src)) no_wrap
            ∙ take-write_at b'.block b'.size src v'.fits
            ∙ ap (λ xs. xs ++ src) same,
      )

  -- write on a buffer, for at most 2 ^ 63 bytes in all and with an operator new that gives what it is
  -- asked for: the call returns; either it answers true, the buffer is well formed again and holds
  -- its old bytes followed by those written, or it answers false and the buffer is untouched, and
  -- then the block was too small and operator new has failed.
  pub write-appends :
      (src : List ℕ)
      → b.size + length src ≤ 2 ^ 63
      → ((b' : Buffer) × (write new src b ≡ some (true, b'))
          × IsBuffer b'
          × (contents b' ≡ contents b ++ src))
        ⊎ ((write new src b ≡ some (false, b))
            × (length b.block < b.size + length src)
            × ((n : ℕ) × (new n ≡ none)))
  unfolding write
  write-appends src le =
      let e : (b.size + length src) % 2 ^ 64 ≡ b.size + length src = short _ le in
      elim (ensure-Ensured (b.size + length src) le (omega arith)) [
        | inl (b', run, v', same, size, room) ↦
            let (v'', grew) = appended src b' le v' same size room in
            inl (_, rw (write, e, run) refl, v'', grew)
        | inr (run, lt, failed) ↦ inr (rw (write, e, run) refl, lt, failed)
      ]

  -- getBuffer on a buffer, for at most 2 ^ 63 bytes in all and with an operator new that gives what it
  -- is asked for: the call returns; either it gives the offset behind the bytes in use, which are
  -- kept, and the room asked for lies in the block and counts as used, or it gives null and the
  -- buffer is untouched.
  pub get_buffer-reserves :
      (need : ℕ)
      → b.size + need ≤ 2 ^ 63
      → ((b' : Buffer) × (get_buffer new need b ≡ some (some b.size, b'))
          × IsBuffer b'
          × (take b.size (contents b') ≡ contents b)
          × (b'.size ≡ b.size + need))
        ⊎ (get_buffer new need b ≡ some (none, b))
  unfolding get_buffer
  get_buffer-reserves need le =
      let e : (b.size + need) % 2 ^ 64 ≡ b.size + need = short _ le in
      elim (ensure-Ensured (b.size + need) le (omega arith)) [
        | inl (b', run, v', same, size, room) ↦
            let no_wrap : (b'.size + need) % 2 ^ 64 ≡ b.size + need =
              ap (λ n. (n + need) % 2 ^ 64) size ∙ e in
            inl (
              record b' { size = (b'.size + need) % 2 ^ 64 },
              rw (get_buffer, e, run)
                  (ap (λ n. some (some n, record b' { size = (b'.size + need) % 2 ^ 64 })) size),
              record { fits = omega (arith, no_wrap, room); small = v'.small; backed = v'.backed },
              ap (λ n. take b.size (take n b'.block)) no_wrap
                  ∙ take-take b.size (b.size + need) b'.block (omega arith)
                  ∙ ap (λ n. take n b'.block) (sym size)
                  ∙ same,
              no_wrap,
            )
        | inr (run, lt, failed) ↦ inr (rw (get_buffer, e, run) refl)
      ]
