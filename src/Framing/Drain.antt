-- ===== src/Framing/Drain.antt =====
-- Netlib/TcpClient.cpp, SplitPacket: the inner loop over the buffer ends, stays inside it, and cuts
-- the bytes as `Stream` says.
use iocp_netlib.Base.{
  ℕ, zero, suc, ◌+◌, ◌-◌, ◌^◌, ◌≤◌, ◌<◌, ◌≡◌, refl, sym, ap, ◌∙◌, ◌⊎◌, inl, inr, true, false, some,
  List, arith, length, take, drop, ltb, ltb→lt, ltb→le, ◌==◌, ==_iff, Bool-cases, length-take,
  take-take, take-move_front, length-move_front, drop_all,
}
use iocp_netlib.Config.{NetServiceErr, success}
use iocp_netlib.Framing.{
  RecvOps, RecvConfig, Drained, read_int, is_illegal_size, shift_block, drain_buffer,
}
use iocp_netlib.Framing.Stream.{
  Frames, no_size, illegal, incomplete, accepted, HasSize, IsLegal, size_of, accepted_at,
  rejected_at, read_int-take,
}

module _ (block : List ℕ) (size left : ℕ) (fits : size + left ≤ length block) where
  length-shift_block : length (shift_block block size left) ≡ length block
  unfolding shift_block
  length-shift_block = ground (arith, length-move_front block size left fits)

  take-shift_block : take left (shift_block block size left) ≡ drop size (take (size + left) block)
  unfolding shift_block
  take-shift_block = elim (Bool-cases (ltb 0 left)) [
    | inl more ↦ rw (more, shift_block) (take-move_front block size left fits)
    | inr none_left ↦ nothing (le-zero (ltb→le 0 left none_left))
  ]
    where
      le-zero : left ≤ 0 → left ≡ 0
      le-zero h = omega arith

      nothing :
          left ≡ 0 → take left (shift_block block size left) ≡ drop size (take (size + left) block)
      nothing e =
          ap (λ (k : ℕ). take k (shift_block block size left)) e
          ∙ sym (
              drop_all size (take (size + left) block)
                (omega (arith, length-take (size + left) block)))

module _ (cfg : RecvConfig) (fits_int : cfg.max_packet_size < 2 ^ 31) (size : ℕ) where
  legal_of_test : is_illegal_size cfg size ≡ false → (4 ≤ size) × (size ≤ cfg.max_packet_size)
  unfolding is_illegal_size
  legal_of_test e = ground arith

  not_legal_of_test :
      is_illegal_size cfg size ≡ true → ¬ ((4 ≤ size) × (size ≤ cfg.max_packet_size))
  unfolding is_illegal_size
  not_legal_of_test e l = ground arith

-- A stream cut without an error leaves less than a buffer.
pub length-rest-lt :
    {W : Type 0} {on_received : W → List ℕ → ℕ × W} {cfg : RecvConfig} {s rest : List ℕ} {w w' : W}
    → cfg.packet_size_offset + 4 ≤ cfg.max_packet_size
    → Frames on_received cfg s w success rest w'
    → length rest < cfg.max_packet_size
length-rest-lt room (no_size h) = omega arith
length-rest-lt room (incomplete h l p) = omega arith
length-rest-lt room (accepted h l p ok f) = length-rest-lt room f

module _ {P W : Type 0} (ops : RecvOps P W) (cfg : RecvConfig) where
  open ops use {on_received}
  open cfg use {max_packet_size, packet_size_offset}

  -- What the inner loop promises, started on `bytes` bytes of `block`.
  pub record DrainsTo (block : List ℕ) (bytes : ℕ) (w : W) (d : Drained W) : Type 0 where
    pub cut : Frames on_received cfg (take bytes block) w d.ret (take d.bytes d.block) d.world
    pub same_length : length d.block ≡ length block
    pub within : d.bytes ≤ bytes

  module _ (fits_int : max_packet_size < 2 ^ 31) (block : List ℕ) (bytes : ℕ) (w : W)
      (inside : bytes ≤ length block) where
    size : ℕ
    size = read_int block packet_size_offset

    packet : List ℕ
    packet = take (read_int block packet_size_offset) block

    next_block : List ℕ
    next_block =
        let size : ℕ = read_int block packet_size_offset in shift_block block size (bytes - size)

    used : length (take bytes block) ≡ bytes
    used = omega (arith, length-take bytes block)

    module _ (has : packet_size_offset + 4 ≤ bytes) where
      has_size : HasSize on_received cfg (take bytes block)
      has_size = omega (arith, used)

      size_eq : size_of on_received cfg (take bytes block) ≡ size
      unfolding size
      size_eq = read_int-take packet_size_offset bytes block has

    -- The loop stops where it is.
    stops :
        {ret : NetServiceErr} {v : W}
        → Frames on_received cfg (take bytes block) w ret (take bytes block) v
        → DrainsTo block bytes w (record { ret = ret; block = block; bytes = bytes; world = v })
    stops f = record { cut = f; same_length = refl; within = omega arith }

    shifted : size ≤ bytes → take (bytes - size) next_block ≡ drop size (take bytes block)
    unfolding size next_block
    shifted fit =
        take-shift_block block (read_int block packet_size_offset)
          (bytes - read_int block packet_size_offset) (omega arith)
        ∙ ap (λ (k : ℕ). drop (read_int block packet_size_offset) (take k block)) (omega arith)

    -- What holds when a round delivers a packet.
    record Delivers : Type 0 where
      sized : packet_size_offset + 4 ≤ bytes
      legal : IsLegal on_received cfg size
      whole : size ≤ bytes
      taken : (on_received w packet).0 ≡ 0

    -- Then the rest of the loop keeps the promise.
    goes_on :
        (d : Drained W)
        → Delivers
        → DrainsTo next_block (bytes - size) (on_received w packet).1 d
        → DrainsTo block bytes w d
    unfolding size packet next_block
    goes_on d v to = record {
      cut =
          accepted_at on_received cfg (has_size v.sized) (size_eq v.sized) v.legal
            (omega (arith, used, v.whole)) (take-take _ bytes block v.whole) (sym (shifted v.whole))
            v.taken to.cut;
      same_length =
          to.same_length
          ∙ length-shift_block block _ (bytes - read_int block packet_size_offset)
              (omega (arith, v.whole));
      within = omega (arith, to.within);
    }

    -- A round stops and keeps the promise, or delivers a packet and goes on.
    Round : ℕ → Type 0
    Round fuel =
        ((d : Drained W) × (drain_buffer ops cfg (suc fuel) block bytes w ≡ some d)
          × DrainsTo block bytes w d)
        ⊎ ((drain_buffer ops cfg (suc fuel) block bytes w
              ≡ drain_buffer ops cfg fuel next_block (bytes - size) (on_received w packet).1)
            × Delivers)

    module _ (fuel : ℕ) (long : ltb bytes (packet_size_offset + 4) ≡ false)
        (good : is_illegal_size cfg size ≡ false) where
      has : packet_size_offset + 4 ≤ bytes
      has = ltb→le bytes _ long

      legal : IsLegal on_received cfg size
      legal = legal_of_test cfg fits_int size good

      good_size : Round fuel
      unfolding Round drain_buffer size packet next_block
      good_size = elim (Bool-cases (ltb bytes size)) [
        | inl part ↦ inl (
          _,
          rw (long, good, part),
          stops (
              incomplete (has_size has) (rw (size_eq has) legal)
                (rw (size_eq has) (omega (arith, used, ltb→lt bytes _ part)))),
        )
        | inr whole ↦ elim (Bool-cases ((on_received w packet).0 == 0)) [
          | inr bad ↦ inl (
            _,
            rw (long, good, whole, bad),
            stops (
                rejected_at on_received cfg (has_size has) (size_eq has) legal
                  (omega (arith, used, ltb→le bytes _ whole))
                  (take-take _ bytes block (ltb→le bytes _ whole))
                  (λ z. cc (bad, (==_iff _ 0).1 z))),
          )
          | inl ok ↦ inr (
            rw (long, good, whole, ok),
            record {
              sized = has;
              legal = legal;
              whole = ltb→le bytes _ whole;
              taken = (==_iff _ 0).0 ok;
            },
          )
        ]
      ]

    any_size : (fuel : ℕ) → Round fuel
    unfolding Round drain_buffer size packet next_block
    any_size fuel = elim (Bool-cases (ltb bytes (packet_size_offset + 4))) [
      | inl short ↦ inl (_, rw short, stops (no_size (omega (arith, used, ltb→lt bytes _ short))))
      | inr long ↦ elim (Bool-cases (is_illegal_size cfg size)) [
        | inl bad ↦ inl (
          _,
          rw (long, bad),
          stops (
              illegal (has_size (ltb→le bytes _ long))
                (rw (size_eq (ltb→le bytes _ long)) (not_legal_of_test cfg fits_int size bad))),
        )
        | inr good ↦ good_size fuel long good
      ]
    ]

    next_inside : Delivers → bytes - size ≤ length next_block
    unfolding size next_block
    next_inside v = omega (
      arith,
      v.whole,
      length-shift_block block (read_int block packet_size_offset)
          (bytes - read_int block packet_size_offset) (omega (arith, v.whole)),
    )

  module _ (fits_int : max_packet_size < 2 ^ 31) where
    -- The inner loop ends, and keeps its promise.
    pub drain_buffer-DrainsTo :
        (fuel : ℕ) (block : List ℕ) (bytes : ℕ) (w : W)
        → bytes ≤ length block
        → bytes < fuel
        → (d : Drained W) × (drain_buffer ops cfg fuel block bytes w ≡ some d)
          × DrainsTo block bytes w d
    unfolding Round
    drain_buffer-DrainsTo zero block bytes w h m = absurd (omega arith)
    drain_buffer-DrainsTo (suc fuel) block bytes w h m =
        elim (any_size fits_int block bytes w h fuel) [
          | inl stop ↦ stop
          | inr (step, v) ↦
              let (d, run, to) =
                drain_buffer-DrainsTo fuel (next_block fits_int block bytes w h)
                  (bytes - size fits_int block bytes w h)
                  (on_received w (packet fits_int block bytes w h)).1
                  (next_inside fits_int block bytes w h v) (omega (arith, v.legal, v.whole)) in
              (d, step ∙ run, goes_on fits_int block bytes w h d v to)
        ]
