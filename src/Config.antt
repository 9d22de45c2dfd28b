-- ===== src/Config.antt =====
-- include/Config.h: the result codes of the network library, in the source's order.
use iocp_netlib.Base.{ℕ, Bool, true, false, ◌≡◌, ◌≢◌, refl}

pub data NetServiceErr : Type 0 where
  success illegal_recv_packet remote_disconnect system_error : NetServiceErr
  invalid_socket be_closed send_queue_full illegal_send_packet : NetServiceErr
  bind_addr_failed exception recv_failed recv_queue_full : NetServiceErr
  send_not_complete timeout connect_failed invalid_param : NetServiceErr

-- The test `ret == 0` of the callers.
abbrev pub is_success : NetServiceErr → Bool
is_success success = true
is_success _ = false

pub eq_success : (e : NetServiceErr) → is_success e ≡ true → e ≡ success
eq_success success h = refl
eq_success _ h = cc

pub ne_success : (e : NetServiceErr) → is_success e ≡ false → e ≢ success
ne_success success h = cc
ne_success _ h = λ e. cc

-- The number that the C enumeration gives each code.
unfoldable pub err_code : NetServiceErr → ℕ
err_code success = 0
err_code illegal_recv_packet = 1
err_code remote_disconnect = 2
err_code system_error = 3
err_code invalid_socket = 4
err_code be_closed = 5
err_code send_queue_full = 6
err_code illegal_send_packet = 7
err_code bind_addr_failed = 8
err_code exception = 9
err_code recv_failed = 10
err_code recv_queue_full = 11
err_code send_not_complete = 12
err_code timeout = 13
err_code connect_failed = 14
err_code invalid_param = 15
