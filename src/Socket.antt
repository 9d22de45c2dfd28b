-- ===== src/Socket.antt =====
-- Netlib/SuperSocket.cpp: the blocking client. An int of 32 bits is its two's complement.
pub mod Transfer
pub mod Promise
pub mod Deadline
pub mod Sending
pub mod Handles
mod Tests
use iocp_netlib.Base.{
  ℕ, ◌+◌, ◌-◌, ◌%◌, ◌^◌, Bool, true, false, Option, none, some, List, leb, if◌then◌else◌,
}

-- The events of WaitEvent, a flag each.
pub record Events : Type 0 where
  pub read : Bool
  pub write : Bool
  pub error : Bool

-- What the system does, on a state of its own that holds the tick count, before it is cut to 32 bits.
-- select takes the sets, and a time-out or a null pointer, and gives the sets, or none for a
-- result that is not positive. recv and send give none for an error.
pub record Os : Type 1 where
  pub World : Type 0
  pub tick : World → ℕ
  pub select : Events → Option ℕ → World → Option Events × World
  pub recv : ℕ → World → Option (List ℕ) × World
  pub send : List ℕ → World → Option ℕ × World

abbrev pub minus_one : ℕ
minus_one = 0xFFFFFFFF

-- `<=` on ints
abbrev pub sleb : ℕ → ℕ → Bool
sleb a b = leb ((a + 2 ^ 31) % 2 ^ 32) ((b + 2 ^ 31) % 2 ^ 32)

unfoldable pub tick_diff : ℕ → ℕ → ℕ
tick_diff now old = if leb old now then now - old else (0xFFFFFFFF - old + now + 1) % 2 ^ 32

abbrev pub no_events : Events
no_events = record { read = false; write = false; error = false }

module _ (os : Os) where
  unfoldable pub get_tick_ms : os.World → ℕ
  get_tick_ms w = os.tick w % 2 ^ 32

  -- The sets give back only sockets that are in them; with a negative time-out select waits for ever.
  unfoldable pub wait_event : Events → ℕ → os.World → Events × os.World
  wait_event events timeout w =
      let (fired, w') =
        os.select (record events { error = true })
          (if leb (2 ^ 31) timeout then none else some timeout) w in
      (elim fired [ none ↦ no_events | some e ↦ e ], w')

  -- Recv with a time-out
  unfoldable pub recv_timed : ℕ → ℕ → os.World → Option (List ℕ) × os.World
  recv_timed len timeout w =
      let (ev, w') = wait_event (record { read = true; write = false; error = true }) timeout w in
      if ev.read then os.recv len w' else (none, w')
