-- ===== src/Socket/Promise.antt =====
-- Netlib/SuperSocket.cpp: the elapsed time, what the system promises, and the waits that are built on it.
use iocp_netlib.Base.{
  ℕ, ◌+◌, ◌-◌, ◌%◌, ◌^◌, ◌≤◌, ◌<◌, ◌≡◌, ap, ◌∙◌, inl, inr, true, false, Option, none, some, List,
  ◌++◌, arith, length, take, leb, Bool-cases,
}
use iocp_netlib.Socket.{Os, Events, sleb, tick_diff, wait_event, recv_timed}

-- TickDiff on the tick counts of 32 bits is the elapsed time as long as that is below 2 ^ 32 ms, across
-- a wrap of the tick count too.
pub tick_diff-exact :
    (start elapsed : ℕ)
    → elapsed < 2 ^ 32
    → tick_diff ((start + elapsed) % 2 ^ 32) (start % 2 ^ 32) ≡ elapsed
unfolding tick_diff
tick_diff-exact start elapsed h = ground arith

pub used-exact :
    (t₀ t : ℕ) → t₀ ≤ t → t < t₀ + 2 ^ 32 → tick_diff (t % 2 ^ 32) (t₀ % 2 ^ 32) ≡ t - t₀
used-exact t₀ t le lt =
    ap (λ n. tick_diff (n % 2 ^ 32) (t₀ % 2 ^ 32)) (omega arith)
    ∙ tick_diff-exact t₀ (t - t₀) (omega arith)

pub remain-exact :
    (timeout used : ℕ)
    → timeout < 2 ^ 31
    → used ≤ timeout
    → sleb timeout used ≡ false
    → (used < timeout) × ((timeout + 2 ^ 32 - used) % 2 ^ 32 ≡ timeout - used)
remain-exact timeout used small le h = (ground arith, omega arith)

-- What the documentation of the system promises: select with a time-out returns by then, recv gives no
-- more bytes than asked and does not wait on a socket that is ready, send takes no more than given, and
-- the bytes are those of two streams, of which `arrived` and `accepted` have passed.
pub record IsOs (os : Os) : Type 0 where
  pub arrived : os.World → List ℕ
  pub accepted : os.World → List ℕ
  pub select-later :
      (e : Events) (t : ℕ) (w : os.World) → os.tick w ≤ os.tick (os.select e (some t) w).1
  pub select-by :
      (e : Events) (t : ℕ) (w : os.World) → os.tick (os.select e (some t) w).1 ≤ os.tick w + t
  pub select-arrived :
      (e : Events) (t : ℕ) (w : os.World) → arrived (os.select e (some t) w).1 ≡ arrived w
  pub select-accepted :
      (e : Events) (t : ℕ) (w : os.World) → accepted (os.select e (some t) w).1 ≡ accepted w
  pub recv-tick : (n : ℕ) (w : os.World) → os.tick (os.recv n w).1 ≡ os.tick w
  pub recv-none :
      (n : ℕ) (w : os.World) → (os.recv n w).0 ≡ none → arrived (os.recv n w).1 ≡ arrived w
  pub recv-some :
      (n : ℕ) (w : os.World) (bytes : List ℕ)
      → (os.recv n w).0 ≡ some bytes
      → (arrived (os.recv n w).1 ≡ arrived w ++ bytes) × (length bytes ≤ n)
  pub send-none :
      (bytes : List ℕ) (w : os.World)
      → (os.send bytes w).0 ≡ none
      → accepted (os.send bytes w).1 ≡ accepted w
  pub send-some :
      (bytes : List ℕ) (w : os.World) (n : ℕ)
      → (os.send bytes w).0 ≡ some n
      → (accepted (os.send bytes w).1 ≡ accepted w ++ take n bytes) × (n ≤ length bytes)

-- The socket is in non-blocking mode, as SetBlocking(false) leaves it: send returns at once. On a
-- socket in blocking mode it may wait for room, even when select has found it ready.
pub record IsNonBlocking (os : Os) : Type 0 where
  pub send-tick : (bytes : List ℕ) (w : os.World) → os.tick (os.send bytes w).1 ≡ os.tick w

positive : (t : ℕ) → t < 2 ^ 31 → leb (2 ^ 31) t ≡ false
positive t h = ground arith

module _ (os : Os) (is : IsOs os) where
  -- A wait for part of the time that is left.
  pub wait_event_lem :
      (events : Events) (t : ℕ) (w : os.World)
      → t < 2 ^ 31
      → let w' : os.World = (wait_event os events t w).1 in
        (os.tick w ≤ os.tick w')
        × (os.tick w' ≤ os.tick w + t)
        × (is.arrived w' ≡ is.arrived w)
        × (is.accepted w' ≡ is.accepted w)
  unfolding wait_event
  wait_event_lem events t w h =
      let e : Events = record events { error = true } in
      rw (positive t h) (
        is.select-later e t w,
        is.select-by e t w,
        is.select-arrived e t w,
        is.select-accepted e t w,
      )

  -- What Recv with a time-out has done to the stream.
  unfoldable pub Got : ℕ → ℕ → os.World → Option (List ℕ) × os.World → Type 0
  Got asked t w (o, w') =
      (os.tick w' ≤ os.tick w + t)
      × (os.tick w ≤ os.tick w')
      × (o ≡ none → is.arrived w' ≡ is.arrived w)
      × ((bytes : List ℕ)
          → o ≡ some bytes
          → (is.arrived w' ≡ is.arrived w ++ bytes) × (length bytes ≤ asked))

  pub recv_timed-Got :
      (asked t : ℕ) (w : os.World) → t < 2 ^ 31 → Got asked t w (recv_timed os asked t w)
  unfolding recv_timed Got
  recv_timed-Got asked t w h =
      let events : Events = record { read = true; write = false; error = true } in
      let w' : os.World = (wait_event os events t w).1 in
      let (later, by, same, _) = wait_event_lem events t w h in
      elim (Bool-cases (wait_event os events t w).0.read) [
        | inl ready ↦ rw ready (
          omega (arith, is.recv-tick asked w', by),
          omega (arith, is.recv-tick asked w', later),
          λ nothing. is.recv-none asked w' nothing ∙ same,
          λ bytes e.
              let (at, few) = is.recv-some asked w' bytes e in
              (at ∙ ap (λ xs. xs ++ bytes) same, few),
        )
        | inr not_ready ↦ rw not_ready (by, later, λ _. same, λ bytes e. absurd cc)
      ]
