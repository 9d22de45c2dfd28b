-- ===== src/Socket/Transfer.antt =====
-- Netlib/SuperSocket.cpp: RecvAll and SendAll. Their loops run on fuel; `none` is a loop that has not
-- ended within it.
use iocp_netlib.Base.{
  ℕ, zero, suc, ◌+◌, ◌-◌, ◌%◌, ◌^◌, true, false, Option, none, some, List, [], ◌∷◌, ◌++◌, ltb,
  length, drop, if◌then◌else◌,
}
use iocp_netlib.Socket.{Os, minus_one, sleb, tick_diff, get_tick_ms, wait_event, recv_timed}

module _ (os : Os) where
  -- One round of RecvAll: `stop` carries the value to return.
  pub data Round : Type 0 where
    stop : ℕ → os.World → Round
    more : List ℕ → os.World → Round

  unfoldable pub received : Option (List ℕ) × os.World → Round
  received (none, w) = stop minus_one w
  received (some [], w) = stop 0 w
  received (some (b ∷ bytes), w) = more (b ∷ bytes) w

  unfoldable pub recv_round : ℕ → ℕ → ℕ → os.World → Round
  unfolding received
  recv_round start timeout asked w =
      let used = tick_diff (get_tick_ms os w) start in
      if sleb timeout used
      then stop minus_one w
      else received (recv_timed os asked ((timeout + 2 ^ 32 - used) % 2 ^ 32) w)

  -- The loop, with the bytes in the buffer so far.
  unfoldable pub recv_loop : ℕ → ℕ → ℕ → ℕ → List ℕ → os.World → Option (ℕ × List ℕ × os.World)
  recv_loop zero start timeout len got w = none
  recv_loop (suc fuel) start timeout len got w = elim (ltb (length got) len) [
    | true ↦ elim (recv_round start timeout (len - length got) w) [
      | stop ret w' ↦ some (ret, got, w')
      | more bytes w' ↦ recv_loop fuel start timeout len (got ++ bytes) w'
    ]
    | false ↦ some (length got, got, w)
  ]

  unfoldable pub recv_all : ℕ → ℕ → os.World → Option (ℕ × List ℕ × os.World)
  recv_all len timeout w = recv_loop (len + 1) (get_tick_ms os w) timeout len [] w

  -- One round of SendAll: `failed` is a return of -1.
  pub data Sending : Type 0 where
    failed : os.World → Sending
    taken : ℕ → os.World → Sending

  unfoldable pub sent : Option ℕ × os.World → Sending
  sent (none, w) = failed w
  sent (some zero, w) = failed w
  sent (some (suc n), w) = taken (suc n) w

  unfoldable pub send_round : ℕ → ℕ → List ℕ → os.World → Sending
  unfolding sent
  send_round start timeout rest w =
      let used = tick_diff (get_tick_ms os w) start in
      if sleb timeout used
      then failed w
      else (let (ev, w') =
            wait_event os (record { read = false; write = true; error = true })
              ((timeout + 2 ^ 32 - used) % 2 ^ 32) w in
          if ev.write then sent (os.send rest w') else failed w')

  unfoldable pub send_loop : ℕ → ℕ → ℕ → List ℕ → ℕ → os.World → Option (ℕ × os.World)
  send_loop zero start timeout buf total w = none
  send_loop (suc fuel) start timeout buf total w = elim (ltb total (length buf)) [
    | true ↦ elim (send_round start timeout (drop total buf) w) [
      | failed w' ↦ some (minus_one, w')
      | taken n w' ↦ send_loop fuel start timeout buf (total + n) w'
    ]
    | false ↦ some (total, w)
  ]

  unfoldable pub send_all : List ℕ → ℕ → os.World → Option (ℕ × os.World)
  send_all buf timeout w = send_loop (length buf + 1) (get_tick_ms os w) timeout buf 0 w
