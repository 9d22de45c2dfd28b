-- ===== src/Socket/Tests.antt =====
-- Netlib/SuperSocket.cpp: runs on a system that hands out two bytes at a time, and the theorems there.
use iocp_netlib.Base.{
  ℕ, ◌+◌, ◌%◌, ◌^◌, ◌≤◌, ◌<◌, ◌≡◌, refl, ap, subst, ◌⊎◌, true, false, Option, none, some, List, [],
  ◌∷◌, ◌++◌, min, arith, length, take, drop, length-take,
}
use iocp_netlib.Socket.{Os, minus_one, tick_diff, get_tick_ms, wait_event, recv_timed}
use iocp_netlib.Socket.Transfer.{
  received, recv_round, recv_loop, recv_all, sent, send_round, send_loop, send_all,
}
use iocp_netlib.Socket.Promise.{IsOs, IsNonBlocking, tick_diff-exact}
use iocp_netlib.Socket.Deadline.{recv_all-deadline}
use iocp_netlib.Socket.Sending.{send_all-deadline}
use iocp_netlib.Socket.Handles.{
  SuperSocket, tcp, fresh, close, create, connect, connected, creates, connects, closes, calls, own,
  set_blocking, is_refused, calls-no_leak,
}

-- Five bytes wait at first; each select takes a millisecond of the time it is given.
record Peer : Type 0 where
  now : ℕ
  waiting : List ℕ
  taken_in : List ℕ
  given : List ℕ

value_or {ℓ} : {A : Type ℓ} → A → Option A → A
value_or d none = d
value_or d (some a) = a

abbrev two_at_a_time : Os
two_at_a_time = record {
  World = Peer;
  tick = λ (w : Peer). w.now;
  select = λ e t (w : Peer). (
    some (record { read = true; write = true; error = false }),
    record w { now = w.now + (elim t [ none ↦ 1 | some n ↦ min 1 n ]) },
  );
  recv = λ n (w : Peer). (
    some (take (min 2 n) w.waiting),
    record w {
      waiting = drop (min 2 n) w.waiting;
      taken_in = w.taken_in ++ take (min 2 n) w.waiting;
    },
  );
  send = λ bytes (w : Peer). (
    some (min 2 (length bytes)),
    record w { given = w.given ++ take (min 2 (length bytes)) bytes },
  );
}

two_at_a_time-IsOs : IsOs two_at_a_time
unfolding value_or
two_at_a_time-IsOs = record {
  arrived = λ (w : Peer). w.taken_in;
  accepted = λ (w : Peer). w.given;
  select-later = λ e t (w : Peer). omega arith;
  select-by = λ e t (w : Peer). omega arith;
  select-arrived = λ e t (w : Peer). refl;
  select-accepted = λ e t (w : Peer). refl;
  recv-tick = λ n (w : Peer). refl;
  recv-none = λ n (w : Peer) h. absurd cc;
  recv-some = λ n (w : Peer) bytes h.
      let same : take (min 2 n) w.waiting ≡ bytes = ap (value_or []) h in
      (
        ap (λ xs. w.taken_in ++ xs) same,
        subst (λ (xs : List ℕ). length xs ≤ n) same
            (omega (arith, length-take (min 2 n) w.waiting)),
      );
  send-none = λ bytes (w : Peer) h. absurd cc;
  send-some = λ bytes (w : Peer) n h.
      let same : min 2 (length bytes) ≡ n = ap (value_or 0) h in
      (ap (λ (k : ℕ). w.given ++ take k bytes) same, omega (arith, same));
}

two_at_a_time-IsNonBlocking : IsNonBlocking two_at_a_time
two_at_a_time-IsNonBlocking = record { send-tick = λ bytes (w : Peer). refl }

abbrev late : Peer
late = record { now = 4294967295; waiting = 1 ∷ 2 ∷ 3 ∷ 4 ∷ 5 ∷ []; taken_in = []; given = [] }

-- The tick count wraps within the call, and the fifth byte does not fit.
recv_all-late :
    recv_all two_at_a_time 4 100 late
    ≡ some (
      4,
      1 ∷ 2 ∷ 3 ∷ 4 ∷ [],
      record { now = 4294967297; waiting = 5 ∷ []; taken_in = 1 ∷ 2 ∷ 3 ∷ 4 ∷ []; given = [] },
    )
unfolding recv_all recv_loop recv_round received recv_timed wait_event get_tick_ms tick_diff
recv_all-late = refl

-- A time-out in the middle loses the count of the bytes that are in the buffer.
recv_all_slow :
    recv_all two_at_a_time 4 1 late
    ≡ some (
      minus_one,
      1 ∷ 2 ∷ [],
      record { now = 4294967296; waiting = 3 ∷ 4 ∷ 5 ∷ []; taken_in = 1 ∷ 2 ∷ []; given = [] },
    )
unfolding recv_all recv_loop recv_round received recv_timed wait_event get_tick_ms tick_diff
recv_all_slow = refl

send_all-late :
    send_all two_at_a_time (7 ∷ 8 ∷ 9 ∷ []) 100 late
    ≡ some (3, record late { now = 4294967297; given = 7 ∷ 8 ∷ 9 ∷ [] })
unfolding send_all send_loop send_round sent wait_event get_tick_ms tick_diff
send_all-late = refl

tick_diff-exact_test : tick_diff ((4294967290 + 10) % 2 ^ 32) (4294967290 % 2 ^ 32) ≡ 10
tick_diff-exact_test = tick_diff-exact 4294967290 10 (omega arith)

recv_all-deadline_example :
    (ret : ℕ) × (got : List ℕ) × (w' : Peer) × (recv_all two_at_a_time 4 100 late
      ≡ some (ret, got, w'))
    × (w'.now ≤ late.now + 100)
    × (w'.taken_in ≡ [] ++ got)
    × (((ret ≡ 4) × (length got ≡ 4)) ⊎ (((ret ≡ minus_one) ⊎ (ret ≡ 0)) × (length got < 4)))
unfolding two_at_a_time-IsOs
recv_all-deadline_example =
    recv_all-deadline two_at_a_time two_at_a_time-IsOs 4 100 late (omega arith)

send_all-deadline_example :
    (ret : ℕ) × (w' : Peer) × (send_all two_at_a_time (7 ∷ 8 ∷ 9 ∷ []) 100 late ≡ some (ret, w'))
    × (w'.now ≤ late.now + 100)
    × (((ret ≡ 3) × (w'.given ≡ [] ++ (7 ∷ 8 ∷ 9 ∷ [])))
        ⊎ ((ret ≡ minus_one) × ((k : ℕ) × (k < 3) × (w'.given ≡ [] ++ take k (7 ∷ 8 ∷ 9 ∷ [])))))
unfolding two_at_a_time-IsOs
send_all-deadline_example =
    send_all-deadline two_at_a_time two_at_a_time-IsOs two_at_a_time-IsNonBlocking (7 ∷ 8 ∷ 9 ∷ [])
      100 late (omega arith)

-- A Connect that is refused, and one that succeeds after it: the first handle is closed.
refused_then_connected : SuperSocket
refused_then_connected = calls fresh (
    connects (record {
      null_host = false;
      handle = some 5;
      resolved = false;
      result = connected;
      fired = record { read = false; write = true; error = false };
      so_error = 0;
    })
    ∷ connects (record {
      null_host = false;
      handle = some 6;
      resolved = true;
      result = connected;
      fired = record { read = false; write = true; error = false };
      so_error = 0;
    })
    ∷ [])

handles-refused_then_connected : refused_then_connected.handles ≡ 6 ∷ []
unfolding refused_then_connected connect create close set_blocking is_refused
handles-refused_then_connected = refl

calls-no_leak_example :
    ((calls fresh (creates tcp (some 5) ∷ closes ∷ [])).handles
      ≡ own (calls fresh (creates tcp (some 5) ∷ closes ∷ [])).fd)
    × ((close (calls fresh (creates tcp (some 5) ∷ closes ∷ []))).handles ≡ [])
calls-no_leak_example = calls-no_leak (creates tcp (some 5) ∷ closes ∷ [])
