-- ===== src/Socket/Deadline.antt =====
-- Netlib/SuperSocket.cpp: RecvAll returns by its deadline, with the bytes it has taken from the stream.
use iocp_netlib.Base.{
  ℕ, zero, suc, ◌+◌, ◌-◌, ◌%◌, ◌^◌, ◌≤◌, ◌<◌, ◌≡◌, refl, sym, ap, ◌∙◌, ◌⊎◌, inl, inr, true, Option,
  none, some, List, [], ◌∷◌, ◌++◌, append-nil, append_assoc, arith, length, length-append, ltb,
  ltb→lt, ltb→le, Bool-cases,
}
use iocp_netlib.Socket.{Os, minus_one, sleb, tick_diff, get_tick_ms, recv_timed}
use iocp_netlib.Socket.Transfer.{Round, stop, more, received, recv_round, recv_loop, recv_all}
use iocp_netlib.Socket.Promise.{IsOs, Got, used-exact, remain-exact, recv_timed-Got}

module _ (os : Os) (is : IsOs os) where
  -- One round between the start and the deadline.
  module _ (t₀ timeout : ℕ) (small : timeout < 2 ^ 31) where
    abbrev InTime : os.World → Type 0
    InTime w = (t₀ ≤ os.tick w) × (os.tick w ≤ t₀ + timeout)

    abbrev RoundOk : ℕ → os.World → Round os → Type 0
    RoundOk asked w (stop ret w') =
        InTime w' × ((ret ≡ minus_one) ⊎ (ret ≡ 0)) × (is.arrived w' ≡ is.arrived w)
    RoundOk asked w (more bytes w') =
        InTime w'
        × (0 < length bytes)
        × (length bytes ≤ asked)
        × (is.arrived w' ≡ is.arrived w ++ bytes)

    received-RoundOk :
        (asked t : ℕ) (w : os.World) (r : Option (List ℕ) × os.World)
        → InTime w
        → os.tick w + t ≤ t₀ + timeout
        → Got os is asked t w r
        → RoundOk asked w (received os r)
    unfolding received Got
    received-RoundOk asked t w (none, w') inside room (by, later, kept, _) =
        ((omega (arith, inside.0), omega arith), inl refl, kept refl)
    received-RoundOk asked t w (some [], w') inside room (by, later, _, got) = (
      (omega (arith, inside.0), omega arith),
      inr refl,
      (got [] refl).0 ∙ append-nil (is.arrived w),
    )
    received-RoundOk asked t w (some (b ∷ bytes), w') inside room (by, later, _, got) =
        let (at, few) = got (b ∷ bytes) refl in
        ((omega (arith, inside.0), omega arith), omega arith, few, at)

    recv_round-RoundOk :
        (asked : ℕ) (w : os.World)
        → InTime w
        → RoundOk asked w (recv_round os (t₀ % 2 ^ 32) timeout asked w)
    unfolding recv_round get_tick_ms
    recv_round-RoundOk asked w (after, before) =
        let used : ℕ = tick_diff (os.tick w % 2 ^ 32) (t₀ % 2 ^ 32) in
        let e : used ≡ os.tick w - t₀ = used-exact t₀ (os.tick w) after (omega arith) in
        elim (Bool-cases (sleb timeout used)) [
          | inl late ↦ rw (recv_round, late) ((after, before), inl refl, refl)
          | inr not_late ↦
              let (lt, same) = remain-exact timeout used small (omega (arith, e)) not_late in
              rw (recv_round, not_late, same)
                (received-RoundOk asked (timeout - used) w (recv_timed os asked (timeout - used) w)
                  (after, before) (omega (arith, e, lt))
                  (recv_timed-Got os is asked (timeout - used) w (omega (arith, small))))
        ]

    -- The value of RecvAll and the bytes in its buffer.
    abbrev Finished : ℕ → List ℕ → ℕ × List ℕ × os.World → Type 0
    Finished len before (ret, got, w') =
        InTime w'
        × (is.arrived w' ≡ before ++ got)
        × (((ret ≡ len) × (length got ≡ len))
            ⊎ (((ret ≡ minus_one) ⊎ (ret ≡ 0)) × (length got < len)))

    abbrev Loops : ℕ → ℕ → List ℕ → Type 0
    Loops fuel len before =
        (got : List ℕ) (w : os.World)
        → len < length got + fuel
        → length got ≤ len
        → InTime w
        → is.arrived w ≡ before ++ got
        → (r : ℕ × List ℕ × os.World) × (recv_loop os fuel (t₀ % 2 ^ 32) timeout len got w ≡ some r)
          × Finished len before r

    recv_loop-round :
        (fuel len : ℕ) (before got : List ℕ) (w : os.World) (r : Round os)
        → Loops fuel len before
        → recv_round os (t₀ % 2 ^ 32) timeout (len - length got) w ≡ r
        → ltb (length got) len ≡ true
        → len < length got + suc fuel
        → is.arrived w ≡ before ++ got
        → RoundOk (len - length got) w r
        → (r : ℕ × List ℕ × os.World) × (recv_loop os (suc fuel) (t₀ % 2 ^ 32) timeout len got w
            ≡ some r)
          × Finished len before r
    unfolding recv_loop
    recv_loop-round fuel len before got w (stop ret w') again e h enough at (inside, bad, same) = (
      (ret, got, w'),
      rw (recv_loop, h, e) refl,
      (inside, same ∙ at, inr (bad, ltb→lt (length got) len h)),
    )
    recv_loop-round fuel len before got w (more bytes w') again e h enough at
          (inside, some_bytes, few, came) =
        let lt : length got < len = ltb→lt (length got) len h in
        let (r, run, done) =
          again (got ++ bytes) w' (omega (arith, length-append got bytes))
            (omega (arith, lt, length-append got bytes)) inside
            (came ∙ ap (λ xs. xs ++ bytes) at ∙ append_assoc before got bytes) in
        (r, rw (recv_loop, h, e) run, done)

    recv_loop-Finished : (fuel len : ℕ) (before : List ℕ) → Loops fuel len before
    unfolding recv_loop
    recv_loop-Finished zero len before got w enough le inside at = absurd (omega arith)
    recv_loop-Finished (suc fuel) len before got w enough le inside at =
        elim (Bool-cases (ltb (length got) len)) [
          | inl h ↦
              recv_loop-round fuel len before got w _ (recv_loop-Finished fuel len before) refl h
                enough at (recv_round-RoundOk (len - length got) w inside)
          | inr h ↦
              let full : length got ≡ len = omega (arith, ltb→le (length got) len h) in
              ((length got, got, w), rw (recv_loop, h) refl, (inside, at, inl (full, full)))
        ]

  -- RecvAll on a system that keeps its documented promises, with a time-out of at most 2 ^ 31 - 1 ms:
  -- the call returns, at most the time-out after its start, across a wrap of the tick count too; the
  -- bytes in its buffer are the next ones of the stream, in order, and none that has arrived is
  -- missing; and either the value is `len` and the buffer has that many bytes, or it is -1 or 0 and
  -- the buffer has fewer.
  pub recv_all-deadline :
      (len timeout : ℕ) (w : os.World)
      → timeout < 2 ^ 31
      → (ret : ℕ) × (got : List ℕ) × (w' : os.World) × (recv_all os len timeout w
          ≡ some (ret, got, w'))
        × (os.tick w' ≤ os.tick w + timeout)
        × (is.arrived w' ≡ is.arrived w ++ got)
        × (((ret ≡ len) × (length got ≡ len))
            ⊎ (((ret ≡ minus_one) ⊎ (ret ≡ 0)) × (length got < len)))
  unfolding recv_all get_tick_ms
  recv_all-deadline len timeout w small =
      let ((ret, got, w'), run, ((_, by), at, result)) =
        recv_loop-Finished (os.tick w) timeout small (len + 1) len (is.arrived w) [] w (omega arith)
          (omega arith) (omega arith, omega arith) (sym (append-nil (is.arrived w))) in
      (ret, got, w', run, by, at, result)
