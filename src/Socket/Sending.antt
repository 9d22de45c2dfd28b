-- ===== src/Socket/Sending.antt =====
-- Netlib/SuperSocket.cpp: SendAll returns by its deadline, with a prefix of its data accepted.
use iocp_netlib.Base.{
  ℕ, zero, suc, ◌+◌, ◌-◌, ◌%◌, ◌^◌, ◌≤◌, ◌<◌, ◌≡◌, refl, sym, ap, subst, ◌∙◌, ◌⊎◌, inl, inr, true,
  false, Option, none, some, List, [], ◌∷◌, ◌++◌, append-nil, append_assoc, arith, length,
  length-drop, take, drop, take_all, ltb, ltb→lt, ltb→le, Bool-cases, if◌then◌else◌,
}
use iocp_netlib.Socket.{Os, Events, minus_one, sleb, tick_diff, get_tick_ms, wait_event}
use iocp_netlib.Socket.Transfer.{Sending, failed, taken, sent, send_round, send_loop, send_all}
use iocp_netlib.Socket.Promise.{IsOs, IsNonBlocking, used-exact, remain-exact, wait_event_lem}

take_next : (m n k : ℕ) (xs : List ℕ) → m ≡ k + n → take k xs ++ take n (drop k xs) ≡ take m xs
take_next m n zero xs e = ap (λ (j : ℕ). take j xs) (omega arith)
take_next zero n (suc k) xs e = absurd (omega arith)
take_next (suc m) zero (suc k) [] e = refl
take_next (suc m) (suc n) (suc k) [] e = refl
take_next (suc m) n (suc k) (x ∷ xs) e = ap (◌∷◌ x) (take_next m n k xs (omega arith))

module _ (os : Os) (is : IsOs os) (non : IsNonBlocking os) (t₀ timeout : ℕ)
    (small : timeout < 2 ^ 31) where
  abbrev InTime : os.World → Type 0
  InTime w = (t₀ ≤ os.tick w) × (os.tick w ≤ t₀ + timeout)

  -- A round that starts with the bytes `acc` accepted.
  abbrev RoundOk : List ℕ → List ℕ → Sending os → Type 0
  RoundOk rest acc (failed w') = InTime w' × (is.accepted w' ≡ acc)
  RoundOk rest acc (taken n w') =
      InTime w' × (0 < n) × (n ≤ length rest) × (is.accepted w' ≡ acc ++ take n rest)

  -- What a send on a ready socket has done to the stream.
  abbrev Took : List ℕ → os.World → Option ℕ × os.World → Type 0
  Took rest w (o, w') =
      (os.tick w' ≡ os.tick w)
      × (o ≡ none → is.accepted w' ≡ is.accepted w)
      × ((n : ℕ) → o ≡ some n → (is.accepted w' ≡ is.accepted w ++ take n rest) × (n ≤ length rest))

  sent-RoundOk :
      (rest : List ℕ) (w : os.World) (r : Option ℕ × os.World)
      → InTime w
      → Took rest w r
      → RoundOk rest (is.accepted w) (sent os r)
  unfolding sent
  sent-RoundOk rest w (none, w') inside (same, kept, _) =
      ((omega (arith, inside.0), omega (arith, inside.1)), kept refl)
  sent-RoundOk rest w (some zero, w') inside (same, _, took) = (
    (omega (arith, inside.0), omega (arith, inside.1)),
    (took 0 refl).0 ∙ append-nil (is.accepted w),
  )
  sent-RoundOk rest w (some (suc n), w') inside (same, _, took) =
      let (at, few) = took (suc n) refl in
      ((omega (arith, inside.0), omega (arith, inside.1)), omega arith, few, at)

  send-Took : (rest : List ℕ) (w : os.World) → Took rest w (os.send rest w)
  send-Took rest w = (non.send-tick rest w, is.send-none rest w, is.send-some rest w)

  -- The wait and the send of a round, with `t` of the time left.
  after_wait :
      (rest : List ℕ) (t : ℕ) (w : os.World)
      → t < 2 ^ 31
      → InTime w
      → os.tick w + t ≤ t₀ + timeout
      → let (ev, w') = wait_event os (record { read = false; write = true; error = true }) t w in
        RoundOk rest (is.accepted w) (if ev.write then sent os (os.send rest w') else failed w')
  after_wait rest t w lt inside room =
      let events : Events = record { read = false; write = true; error = true } in
      let w' : os.World = (wait_event os events t w).1 in
      let (later, by, _, same) = wait_event_lem os is events t w lt in
      let inside' : InTime w' = (omega (arith, later, inside.0), omega (arith, by, room)) in
      elim (Bool-cases (wait_event os events t w).0.write) [
        | inl ready ↦ rw ready (
            subst (λ acc. RoundOk rest acc (sent os (os.send rest w'))) same
              (sent-RoundOk rest w' (os.send rest w') inside' (send-Took rest w')))
        | inr not_ready ↦ rw not_ready (inside', same)
      ]

  send_round-RoundOk :
      (rest : List ℕ) (w : os.World)
      → InTime w
      → RoundOk rest (is.accepted w) (send_round os (t₀ % 2 ^ 32) timeout rest w)
  unfolding send_round get_tick_ms
  send_round-RoundOk rest w (after, before) =
      let used : ℕ = tick_diff (os.tick w % 2 ^ 32) (t₀ % 2 ^ 32) in
      let e : used ≡ os.tick w - t₀ = used-exact t₀ (os.tick w) after (omega arith) in
      elim (Bool-cases (sleb timeout used)) [
        | inl late ↦ rw (send_round, late) ((after, before), refl)
        | inr not_late ↦
            let (lt, same) = remain-exact timeout used small (omega (arith, e)) not_late in
            rw (send_round, not_late, same)
              (after_wait rest (timeout - used) w (omega (arith, small)) (after, before)
                (omega (arith, e, lt)))
      ]

  -- The value of SendAll and the state it leaves.
  abbrev Finished : List ℕ → List ℕ → ℕ × os.World → Type 0
  Finished buf before (ret, w') =
      InTime w'
      × (((ret ≡ length buf) × (is.accepted w' ≡ before ++ buf))
          ⊎ ((ret ≡ minus_one)
              × ((k : ℕ) × (k < length buf) × (is.accepted w' ≡ before ++ take k buf))))

  abbrev Loops : ℕ → List ℕ → List ℕ → Type 0
  Loops fuel buf before =
      (total : ℕ) (w : os.World)
      → length buf < total + fuel
      → total ≤ length buf
      → InTime w
      → is.accepted w ≡ before ++ take total buf
      → (r : ℕ × os.World) × (send_loop os fuel (t₀ % 2 ^ 32) timeout buf total w ≡ some r)
        × Finished buf before r

  send_loop-round :
      (fuel : ℕ) (buf before : List ℕ) (total : ℕ) (w : os.World) (r : Sending os)
      → Loops fuel buf before
      → send_round os (t₀ % 2 ^ 32) timeout (drop total buf) w ≡ r
      → ltb total (length buf) ≡ true
      → length buf < total + suc fuel
      → RoundOk (drop total buf) (before ++ take total buf) r
      → (r : ℕ × os.World) × (send_loop os (suc fuel) (t₀ % 2 ^ 32) timeout buf total w ≡ some r)
        × Finished buf before r
  unfolding send_loop
  send_loop-round fuel buf before total w (failed w') again e h enough (inside, same) = (
    (minus_one, w'),
    rw (send_loop, h, e) refl,
    (inside, inr (refl, (total, ltb→lt total (length buf) h, same))),
  )
  send_loop-round fuel buf before total w (taken n w') again e h enough (inside, pos, few, came) =
      let (r, run, done) =
        again (total + n) w' (omega arith)
          (omega (arith, ltb→lt total (length buf) h, length-drop total buf)) inside
          (came
            ∙ append_assoc before (take total buf) (take n (drop total buf))
            ∙ ap (λ xs. before ++ xs) (take_next (total + n) n total buf refl)) in
      (r, rw (send_loop, h, e) run, done)

  send_loop-Finished : (fuel : ℕ) (buf before : List ℕ) → Loops fuel buf before
  unfolding send_loop
  send_loop-Finished zero buf before total w enough le inside at = absurd (omega arith)
  send_loop-Finished (suc fuel) buf before total w enough le inside at =
      elim (Bool-cases (ltb total (length buf))) [
        | inl h ↦
            send_loop-round fuel buf before total w
              (send_round os (t₀ % 2 ^ 32) timeout (drop total buf) w)
              (send_loop-Finished fuel buf before) refl h enough
              (subst
                (λ acc.
                  RoundOk (drop total buf) acc
                    (send_round os (t₀ % 2 ^ 32) timeout (drop total buf) w))
                at (send_round-RoundOk (drop total buf) w inside))
        | inr h ↦
            let full : total ≡ length buf = omega (arith, ltb→le total (length buf) h) in
            (
              (total, w),
              rw (send_loop, h) refl,
              (
                inside,
                inl (full, at ∙ ap (λ xs. before ++ xs) (take_all total buf (omega (arith, full)))),
              ),
            )
      ]

-- SendAll on a socket in non-blocking mode, on a system that keeps its documented promises, with a
-- time-out of at most 2 ^ 31 - 1 ms: the call returns, at most the time-out after its start, across a wrap of the tick count too; and
-- either the value is the length of the data and the system has accepted exactly the data, each byte
-- once and in order, or it is -1 and what has been accepted is a proper prefix of the data.
pub send_all-deadline :
    (os : Os) (is : IsOs os) (non : IsNonBlocking os) (buf : List ℕ) (timeout : ℕ) (w : os.World)
    → timeout < 2 ^ 31
    → (ret : ℕ) × (w' : os.World) × (send_all os buf timeout w ≡ some (ret, w'))
      × (os.tick w' ≤ os.tick w + timeout)
      × (((ret ≡ length buf) × (is.accepted w' ≡ is.accepted w ++ buf))
          ⊎ ((ret ≡ minus_one)
              × ((k : ℕ) × (k < length buf) × (is.accepted w' ≡ is.accepted w ++ take k buf))))
unfolding send_all get_tick_ms
send_all-deadline os is non buf timeout w small =
    let ((ret, w'), run, ((_, by), result)) =
      send_loop-Finished os is non (os.tick w) timeout small (length buf + 1) buf (is.accepted w) 0
        w (omega arith) (omega arith) (omega arith, omega arith)
        (sym (append-nil (is.accepted w))) in
    (ret, w', run, by, result)
