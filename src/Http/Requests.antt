-- ===== src/Http/Requests.antt =====
-- Netlib/HttpServiceImplementer.cpp: a request that a handler sees lies in its data, and handlers are
-- found under the method and the path that they were set for.
use iocp_netlib.Base.{
  ℕ, ◌+◌, ◌%◌, ◌^◌, ◌≤◌, ◌<◌, ◌≡◌, subst, inl, inr, some, List, arith, length, drop, length-drop,
  Option-cases,
}
use iocp_netlib.Http.Bounds.{memchr-lt}
use iocp_netlib.Http.Router.{
  HttpRequest, Routes, handled, request_line, read_request, dispatch, on_http_packet,
}

request_line-within :
    (data_bytes : List ℕ) (m p : ℕ)
    → request_line data_bytes ≡ some (m, p)
    → (0 < m) × (m ≤ 16) × (0 < p) × (p ≤ 256) × (m + 1 + p < length data_bytes)
unfolding request_line
request_line-within data_bytes m p e =
    let below = memchr-lt 32 (drop (m + 1) data_bytes) p in
    ground (arith, e, below, length-drop (m + 1) data_bytes)

read_request-within :
    (data_bytes beyond : List ℕ) (m p : ℕ) (r : HttpRequest)
    → read_request data_bytes beyond m p ≡ some r
    → (r.method_len ≡ m)
      × (r.path ≡ m + 1)
      × (r.path_len ≡ p)
      × (r.body < length data_bytes)
      × ((r.body + r.body_len) % 2 ^ 64 ≤ length data_bytes)
unfolding read_request
read_request-within data_bytes beyond m p r e = ground (arith, e)

dispatch-handled :
    (routes : Routes) (data_bytes : List ℕ) (r r' : HttpRequest) (h : ℕ)
    → dispatch routes data_bytes r ≡ handled h r'
    → r ≡ r'
unfolding dispatch
dispatch-handled routes data_bytes r r' h e = ground (arith, e)

-- A request that OnHttpPacket hands to a handler: its method is 1 to 16 bytes, its path 1 to 256 bytes,
-- both lie in the data, and so does the first byte of its body; its body does too, unless the
-- Content-Length was negative, so that bodyLen is 2 ^ 63 or more.
pub on_http_packet-within :
    (routes : Routes) (data_bytes beyond : List ℕ) (h : ℕ) (r : HttpRequest)
    → length data_bytes < 2 ^ 63
    → on_http_packet routes data_bytes beyond ≡ handled h r
    → (0 < r.method_len)
      × (r.method_len ≤ 16)
      × (0 < r.path_len)
      × (r.path_len ≤ 256)
      × (r.path ≡ r.method_len + 1)
      × (r.path + r.path_len < length data_bytes)
      × (r.body < length data_bytes)
      × (r.body_len < 2 ^ 63 → r.body + r.body_len ≤ length data_bytes)
unfolding on_http_packet
on_http_packet-within routes data_bytes beyond h r small e =
    elim (Option-cases (request_line data_bytes)) [
      | inl nothing ↦ absurd (ground (arith, e, nothing))
      | inr (mp, line) ↦
          let (m_pos, m_le, p_pos, p_le, inside) = request_line-within data_bytes mp.0 mp.1 line in
          elim (Option-cases (read_request data_bytes beyond mp.0 mp.1)) [
            | inl nothing ↦ absurd (ground (arith, e, line, nothing))
            | inr (r', got) ↦
                let routed : dispatch routes data_bytes r' ≡ handled h r =
                  ground (arith, e, line, got) in
                let same : r' ≡ r = dispatch-handled routes data_bytes r' r h routed in
                let (m_is, path_is, p_is, body_in, body_end) =
                  read_request-within data_bytes beyond mp.0 mp.1 r
                    (subst (λ x. read_request data_bytes beyond mp.0 mp.1 ≡ some x) same got) in
                (
                  omega (arith, m_is, m_pos),
                  omega (arith, m_is, m_le),
                  omega (arith, p_is, p_pos),
                  omega (arith, p_is, p_le),
                  omega (arith, path_is, m_is),
                  omega (arith, path_is, p_is, inside),
                  body_in,
                  λ lt. omega (arith, body_in, body_end, small),
                )
          ]
    ]
