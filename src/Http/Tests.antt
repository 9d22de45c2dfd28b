-- ===== src/Http/Tests.antt =====
-- Netlib/TcpClientHttp.cpp: a request with one header line.
use iocp_netlib.Base.{ℕ, ◌+◌, ◌≡◌, ◌⊎◌, true, none, drop, refl, some, List, [], ◌∷◌}
use iocp_netlib.Http.{HttpHeader, parse_http_headers, parse_lines, strstr, starts_with, blank_line}
use iocp_netlib.Http.Bounds.{AllInHead, parse_http_headers-AllInHead}

-- "G\r\nA: b\r\n\r\n"
abbrev request : List ℕ
request = 71 ∷ 13 ∷ 10 ∷ 65 ∷ 58 ∷ 32 ∷ 98 ∷ 13 ∷ 10 ∷ 13 ∷ 10 ∷ []

parsed :
    parse_http_headers request
    ≡ some (some (record { key = 3; key_len = 1; value = 6; value_len = 1 } ∷ [], 11))
unfolding parse_http_headers parse_lines
parsed = refl

parse_http_headers-AllInHead_example :
    ((strstr blank_line request ≡ none) × (parse_http_headers request ≡ some none))
    ⊎ ((end : ℕ) × (hs : List HttpHeader) × (strstr blank_line request ≡ some end)
        × (starts_with blank_line (drop end request) ≡ true)
        × (parse_http_headers request ≡ some (some (hs, end + 4)))
        × AllInHead end hs)
parse_http_headers-AllInHead_example = parse_http_headers-AllInHead request
