-- ===== src/Http/Drained.antt =====
-- Netlib/TcpClientHttp.cpp, SplitHttpPacket: its inner loop ends.
use iocp_netlib.Base.{
  ℕ, zero, suc, ◌+◌, ◌-◌, ◌≤◌, ◌<◌, ◌≡◌, refl, ◌∙◌, ◌⊎◌, inl, inr, Bool, Option, none, some, List,
  ◌++◌, arith, length, take, ◌==◌, Bool-cases, Option-cases, length-move_front,
}
use iocp_netlib.Config.{NetServiceErr, success, be_closed}
use iocp_netlib.Framing.{RecvOps, shift_block}
use iocp_netlib.Http.{HttpHeader, parse_http_headers}
use iocp_netlib.Http.Bounds.{parse_http_headers-AllInHead}
use iocp_netlib.Http.Fields.{get_content_length, is_connection_close}
use iocp_netlib.Http.Split.{HttpDrained, c_string, packet_size, stops_at, ended, http_drain}

-- ParseHttpHeaders returns.
parsed-cases :
    (text : List ℕ)
    → (parse_http_headers text ≡ some none)
      ⊎ ((hs : List HttpHeader) × (header_size : ℕ) × (parse_http_headers text
            ≡ some (some (hs, header_size))))
parsed-cases text = elim (parse_http_headers-AllInHead text) [
  | inl (_, run) ↦ inl run
  | inr (end, hs, _, _, run, _) ↦ inr (hs, end + 4, run)
]

length-shift_block :
    (block : List ℕ) (size left : ℕ)
    → size + left ≤ length block
    → length (shift_block block size left) ≡ length block
unfolding shift_block
length-shift_block block size left fits = ground (arith, length-move_front block size left fits)

-- A request that is handed on is not empty, and has been received.
handed_on :
    (max_packet_size content size bytes : ℕ)
    → stops_at max_packet_size content size bytes ≡ none
    → (0 < size) × (size ≤ bytes) × (size ≤ max_packet_size)
unfolding stops_at
handed_on max_packet_size content size bytes e = ground (arith, e)

module _ {P W : Type 0} (ops : RecvOps P W) (max_packet_size : ℕ) (beyond : List ℕ) where
  -- The loop has ended with no more bytes than it had, in a block of the same length.
  abbrev pub Ended : List ℕ → ℕ → Option (HttpDrained W) → Type 0
  Ended block bytes o =
      (d : HttpDrained W) × (o ≡ some d) × (length d.block ≡ length block) × (d.bytes ≤ bytes)

  ended-Ended :
      (ret : NetServiceErr) (block : List ℕ) (bytes : ℕ) (w : W) (close : Bool)
      → Ended block bytes (ended ops max_packet_size beyond ret block bytes w close)
  ended-Ended ret block bytes w close = (
    record { ret = ret; block = block; bytes = bytes; world = w; close = close },
    refl,
    refl,
    omega arith,
  )

  shorter :
      (block : List ℕ) {bytes : ℕ} (block' : List ℕ) (bytes' : ℕ) {o : Option (HttpDrained W)}
      → length block' ≡ length block
      → bytes' ≤ bytes
      → Ended block' bytes' o
      → Ended block bytes o
  shorter block block' bytes' same le (d, run, len, few) = (d, run, len ∙ same, omega arith)

  pub http_drain-Ended :
      (fuel : ℕ) (block : List ℕ) (bytes : ℕ) (w : W) (close : Bool)
      → bytes < fuel
      → bytes ≤ length block
      → Ended block bytes (http_drain ops max_packet_size beyond fuel block bytes w close)
  unfolding http_drain
  http_drain-Ended zero block bytes w close enough fits = absurd (omega arith)
  http_drain-Ended (suc fuel) block bytes w close enough fits =
      let text : List ℕ = c_string (block ++ beyond) in
      elim (parsed-cases text) [
        | inl run ↦ rw (http_drain, run) (ended-Ended success block bytes w close)
        | inr (hs, header_size, run) ↦
            let content : ℕ = get_content_length text hs in
            let size : ℕ = packet_size header_size content in
            let reply : ℕ × W = ops.on_received w (take size block) in
            elim (Option-cases (stops_at max_packet_size content size bytes)) [
              | inr (ret, stop) ↦ rw (http_drain, run, stop) (ended-Ended ret block bytes w close)
              | inl go ↦
                  let (pos, le, _) = handed_on max_packet_size content size bytes go in
                  let block' : List ℕ = shift_block block size (bytes - size) in
                  let same : length block' ≡ length block =
                    length-shift_block block size (bytes - size) (omega (arith, le)) in
                  elim (Bool-cases (reply.0 == 0)) [
                    | inr refused ↦
                        rw (http_drain, run, go, refused)
                          (ended-Ended be_closed block bytes reply.1 close)
                    | inl taken ↦
                        rw (http_drain, run, go, taken)
                          (shorter block block' (bytes - size) same (omega arith) (
                            http_drain-Ended fuel block' (bytes - size) reply.1
                              (is_connection_close text hs) (omega (arith, pos, le))
                              (omega (arith, same))))
                  ]
            ]
      ]
