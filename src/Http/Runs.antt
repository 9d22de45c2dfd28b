-- ===== src/Http/Runs.antt =====
-- Netlib/TcpClientHttp.cpp, Netlib/HttpServiceImplementer.cpp and Netlib/TcpClient.cpp: requests that are
-- received and routed, and a response.
use iocp_netlib.Base.{
  ℕ, zero, suc, ◌+◌, ◌-◌, ◌^◌, ◌≤◌, ◌<◌, ◌≡◌, refl, ap, subst, true, false, Option, none, some,
  List, [], ◌∷◌, ◌++◌, arith, length, drop, replicate, length-replicate, write_at, move_front,
}
use iocp_netlib.Config.{NetServiceErr, success}
use iocp_netlib.Framing.{RecvOps, fetch_buffer, shift_block}
use iocp_netlib.Http.{HttpHeader, parse_http_headers, parse_lines}
use iocp_netlib.Http.Fields.{header_key_equal, get_content_length, is_connection_close, find}
use iocp_netlib.Http.Split.{
  HttpState, packet_size, stops_at, http_drain, http_copy, http_fetched, http_round, http_loop,
  split_http_packet,
}
use iocp_netlib.Http.Returns.{IsWithin, Roomy, split_http_packet-returns}
use iocp_netlib.Http.Response.{
  set_status, set_body, get_http_status_description, digits, status_line, length_line,
  response_text,
}
use iocp_netlib.Http.Lines.{AllLines}
use iocp_netlib.Http.Answer.{response, response-parsed}
use iocp_netlib.Http.Router.{
  HttpRequest, Routes, handled, not_found, put, set_route, lookup, request_line, body_length,
  keeps_alive, read_request, pure_path, dispatch, on_http_packet,
}
use iocp_netlib.Http.Requests.{on_http_packet-within}

-- A pool of one block, and an application that keeps what it is given.
abbrev one_block : RecvOps ℕ (List (List ℕ))
one_block = record {
  alloc_recv_packet = λ n. elim n [ zero ↦ (none, 0) | suc k ↦ (some (replicate 40 0), k) ];
  on_received = λ seen bytes. (0, bytes ∷ seen);
}

abbrev idle : HttpState ℕ (List (List ℕ))
idle = record {
  recv = record { packet_buffer = none; recv_bytes = 0; pool = 1; world = [] };
  close_after_send = false;
  disconnect = none;
}

-- "G\r\nContent-Length: 2\r\n\r\nhi"
abbrev small_request : List ℕ
small_request =
    71 ∷ 13 ∷ 10 ∷ 67 ∷ 111 ∷ 110 ∷ 116 ∷ 101 ∷ 110 ∷ 116 ∷ 45 ∷ 76 ∷ 101 ∷ 110 ∷ 103 ∷ 116 ∷ 104
    ∷ 58 ∷ 32 ∷ 50 ∷ 13 ∷ 10 ∷ 13 ∷ 10 ∷ 104 ∷ 105 ∷ []

-- One request and the first byte of the next one.
one_request :
    split_http_packet one_block 40 [] (small_request ++ (71 ∷ [])) idle
    ≡ some (
      success,
      record idle {
        recv = record {
          packet_buffer =
              some (move_front (write_at (replicate 40 0) 0 (small_request ++ (71 ∷ []))) 26 1);
          recv_bytes = 1;
          pool = 0;
          world = small_request ∷ [];
        };
      },
    )
unfolding split_http_packet http_loop http_round http_fetched http_copy http_drain stops_at
    packet_size fetch_buffer shift_block write_at move_front get_content_length is_connection_close
    header_key_equal parse_http_headers parse_lines
one_request = refl

one_block-Roomy : Roomy one_block 40 []
one_block-Roomy zero block e = absurd cc
one_block-Roomy (suc k) block e =
    subst (λ (l : List ℕ). 40 ≤ length l)
      (ap (λ (o : Option (List ℕ)). elim o [ none ↦ [] | some l ↦ l ]) e)
      (omega (arith, length-replicate {A = ℕ} 40 0))

split_http_packet-returns_example :
    (ret : NetServiceErr) × (s' : HttpState ℕ (List (List ℕ))) × (split_http_packet one_block 40 []
        small_request idle
      ≡ some (ret, s'))
    × IsWithin one_block 40 [] s'.recv
split_http_packet-returns_example =
    split_http_packet-returns one_block 40 [] small_request idle one_block-Roomy
      (λ block e. absurd cc)

-- "GET /a?x HTTP/1.1\r\nA: b\r\nContent-Length: 1\r\n\r\nz"
abbrev get_a : List ℕ
get_a =
    71 ∷ 69 ∷ 84 ∷ 32 ∷ 47 ∷ 97 ∷ 63 ∷ 120 ∷ 32 ∷ 72 ∷ 84 ∷ 84 ∷ 80 ∷ 47 ∷ 49 ∷ 46 ∷ 49 ∷ 13 ∷ 10
    ∷ 65 ∷ 58 ∷ 32 ∷ 98 ∷ 13 ∷ 10 ∷ 67 ∷ 111 ∷ 110 ∷ 116 ∷ 101 ∷ 110 ∷ 116 ∷ 45 ∷ 76 ∷ 101 ∷ 110
    ∷ 103 ∷ 116 ∷ 104 ∷ 58 ∷ 32 ∷ 49 ∷ 13 ∷ 10 ∷ 13 ∷ 10 ∷ 122 ∷ []

-- The handler 7 under "GET" and "/a"
abbrev routes : Routes
routes = (71 ∷ 69 ∷ 84 ∷ 95 ∷ 47 ∷ 97 ∷ [], 7) ∷ []

set_routes : set_route (71 ∷ 69 ∷ 84 ∷ []) (47 ∷ 97 ∷ []) 7 [] ≡ routes
unfolding set_route put
set_routes = refl

abbrev seen : HttpRequest
seen = record {
  method_len = 3;
  path = 4;
  path_len = 4;
  headers =
      record { key = 19; key_len = 1; value = 22; value_len = 1 }
      ∷ record { key = 25; key_len = 14; value = 41; value_len = 1 }
      ∷ [];
  body = 46;
  body_len = 1;
  keep_alive = true;
}

routed : on_http_packet routes get_a [] ≡ handled 7 seen
unfolding on_http_packet request_line read_request dispatch body_length keeps_alive pure_path lookup
    find parse_http_headers parse_lines
routed = refl

unrouted : on_http_packet [] get_a [] ≡ not_found
unfolding on_http_packet request_line read_request dispatch body_length keeps_alive pure_path lookup
    find parse_http_headers parse_lines
unrouted = refl

on_http_packet-within_example :
    (0 < seen.method_len)
    × (seen.method_len ≤ 16)
    × (0 < seen.path_len)
    × (seen.path_len ≤ 256)
    × (seen.path ≡ seen.method_len + 1)
    × (seen.path + seen.path_len < length get_a)
    × (seen.body < length get_a)
    × (seen.body_len < 2 ^ 63 → seen.body + seen.body_len ≤ length get_a)
on_http_packet-within_example = on_http_packet-within routes get_a [] 7 seen (omega arith) routed

-- "GET /a HTTP/1.1\r\nC: -5\r\n\r\nz": "C" passes for Content-Length, and the handler gets a body of
-- 2 ^ 64 - 5 bytes. It passes for Connection
-- as well.
abbrev negative : List ℕ
negative =
    71 ∷ 69 ∷ 84 ∷ 32 ∷ 47 ∷ 97 ∷ 32 ∷ 72 ∷ 84 ∷ 84 ∷ 80 ∷ 47 ∷ 49 ∷ 46 ∷ 49 ∷ 13 ∷ 10 ∷ 67 ∷ 58
    ∷ 32 ∷ 45 ∷ 53 ∷ 13 ∷ 10 ∷ 13 ∷ 10 ∷ 122 ∷ []

negative_routed :
    on_http_packet routes negative []
    ≡ handled 7 (record {
      method_len = 3;
      path = 4;
      path_len = 2;
      headers = record { key = 17; key_len = 1; value = 20; value_len = 2 } ∷ [];
      body = 26;
      body_len = 2 ^ 64 - 5;
      keep_alive = false;
    })
unfolding on_http_packet request_line read_request dispatch body_length keeps_alive pure_path lookup
    find parse_http_headers parse_lines
negative_routed = refl

-- "X: y"
abbrev lines : List (List ℕ)
lines = (88 ∷ 58 ∷ 32 ∷ 121 ∷ []) ∷ []

text_404 :
    response_text (response 404 [] (104 ∷ []))
    ≡ 72 ∷ 84 ∷ 84 ∷ 80 ∷ 47 ∷ 49 ∷ 46 ∷ 49 ∷ 32 ∷ 52 ∷ 48 ∷ 52 ∷ 32 ∷ 78 ∷ 111 ∷ 116 ∷ 32 ∷ 70
      ∷ 111 ∷ 117 ∷ 110 ∷ 100 ∷ 13 ∷ 10 ∷ 67 ∷ 111 ∷ 110 ∷ 116 ∷ 101 ∷ 110 ∷ 116 ∷ 45 ∷ 76 ∷ 101
      ∷ 110 ∷ 103 ∷ 116 ∷ 104 ∷ 58 ∷ 32 ∷ 49 ∷ 13 ∷ 10 ∷ 13 ∷ 10 ∷ 104 ∷ []
unfolding response_text status_line length_line digits get_http_status_description set_body
    set_status
text_404 = refl

lines_ok : AllLines lines
lines_ok = (
  (λ e. cc),
  (
    λ e. omega arith,
    λ e. omega arith,
    (
      λ e. omega arith,
      λ e. omega arith,
      (λ e. omega arith, λ e. omega arith, (λ e. omega arith, λ e. omega arith, tt)),
    ),
  ),
  tt,
)

response-parsed_example :
    (hs : List HttpHeader) × (header_size : ℕ) × (parse_http_headers
        (response_text (response 200 lines (104 ∷ 105 ∷ [])))
      ≡ some (some (hs, header_size)))
    × (get_content_length (response_text (response 200 lines (104 ∷ 105 ∷ []))) hs ≡ 2)
    × (drop header_size (response_text (response 200 lines (104 ∷ 105 ∷ []))) ≡ 104 ∷ 105 ∷ [])
response-parsed_example =
    response-parsed 200 lines (104 ∷ 105 ∷ []) lines_ok
      ((λ e. omega arith), ((λ e. omega arith), tt)) (omega arith)
