-- ===== src/Http/Router.antt =====
-- Netlib/HttpServiceImplementer.cpp: the routes and OnHttpPacket. `data` are the `len` bytes of the
-- request, `beyond` the memory behind them; pointers are offsets into data.
use iocp_netlib.Base.{
  ℕ, ◌+◌, ◌-◌, ◌%◌, ◌^◌, Bool, ◌||◌, ◌&&◌, Option, none, some, List, [], ◌∷◌, ◌++◌, length, take,
  drop, ltb, leb, ◌==◌, if◌then◌else◌,
}
use iocp_netlib.Http.{HttpHeader, memchr, starts_with, parse_http_headers}
use iocp_netlib.Http.Fields.{strnicmp_eq, atoi, content_length, connection, keep_alive, find}
use iocp_netlib.Http.Split.{c_string}

pub record HttpRequest : Type 0 where
  pub method_len : ℕ
  pub path : ℕ
  pub path_len : ℕ
  pub headers : List HttpHeader
  pub body : ℕ
  pub body_len : ℕ
  pub keep_alive : Bool

-- mRoutes, from its keys to the handlers.
abbrev pub Routes : Type 0
Routes = List (List ℕ × ℕ)

abbrev pub same_text : List ℕ → List ℕ → Bool
same_text a b = (length a == length b) && starts_with a b

-- method + "_" + path
abbrev pub route_key : List ℕ → List ℕ → List ℕ
route_key method path = method ++ (95 ∷ path)

unfoldable pub put : List ℕ → ℕ → Routes → Routes
put key handler [] = (key, handler) ∷ []
put key handler ((k, h) ∷ rest) =
    let rest' = put key handler rest in
    if same_text k key then ((k, handler) ∷ rest) else ((k, h) ∷ rest')

unfoldable pub set_route : List ℕ → List ℕ → ℕ → Routes → Routes
set_route method path handler routes = put (route_key method path) handler routes

unfoldable pub lookup : List ℕ → Routes → Option ℕ
lookup key [] = none
lookup key ((k, h) ∷ rest) =
    let found = lookup key rest in if same_text k key then some h else found

-- The lengths of the method and of the path, or none to drop the request.
unfoldable pub request_line : List ℕ → Option (ℕ × ℕ)
request_line data_bytes =
    if ltb (length data_bytes) 14 then none else (elim (memchr 32 data_bytes) [
      | none ↦ none
      | some method_len ↦ elim (memchr 32 (drop (method_len + 1) data_bytes)) [
        | none ↦ none
        | some path_len ↦
            if method_len == 0 || path_len == 0 || ltb 16 method_len || ltb 256 path_len
            then none
            else some (method_len, path_len)
      ]
    ])

-- (size_t)atoi(value): a negative int becomes a number near 2 ^ 64.
abbrev pub to_size : ℕ → ℕ
to_size n = if ltb n (2 ^ 31) then n else n + (2 ^ 64 - 2 ^ 32)

unfoldable pub body_length : List ℕ → List HttpHeader → ℕ
body_length text headers = elim (find text content_length headers) [
  | none ↦ 0
  | some h ↦ to_size (atoi (drop h.value text))
]

-- "HTTP/1.1"
abbrev pub http_1_1 : List ℕ
http_1_1 = 72 ∷ 84 ∷ 84 ∷ 80 ∷ 47 ∷ 49 ∷ 46 ∷ 49 ∷ []

unfoldable pub keeps_alive : List ℕ → List HttpHeader → List ℕ → Bool
keeps_alive text headers version = elim (find text connection headers) [
  | some h ↦ strnicmp_eq (drop h.value text) keep_alive 10
  | none ↦ starts_with http_1_1 version
]

unfoldable pub read_request : List ℕ → List ℕ → ℕ → ℕ → Option HttpRequest
read_request data_bytes beyond method_len path_len =
    let text = c_string (data_bytes ++ beyond) in
    elim (parse_http_headers text) [
      | none ↦ none
      | some none ↦ none
      | some (some (headers, header_size)) ↦
          let body_len = body_length text headers in
          if header_size == 0 || leb (length data_bytes) header_size
          then none
          else if ltb (length data_bytes) ((header_size + body_len) % 2 ^ 64)
          then none
          else some (record {
            method_len = method_len;
            path = method_len + 1;
            path_len = path_len;
            headers = headers;
            body = header_size;
            body_len = body_len;
            keep_alive =
                keeps_alive text headers
                  (drop (method_len + 1 + path_len + 1) (data_bytes ++ beyond));
          })
    ]

-- The path without the query
unfoldable pub pure_path : List ℕ → HttpRequest → List ℕ
pure_path data_bytes r =
    let path = take r.path_len (drop r.path data_bytes) in
    elim (memchr 63 path) [ none ↦ path | some q ↦ take q path ]

-- What OnHttpPacket does: nothing, a call of a handler, or SendNotFoundResponse.
pub data Routed : Type 0 where
  dropped : Routed
  handled : ℕ → HttpRequest → Routed
  not_found : Routed

unfoldable pub dispatch : Routes → List ℕ → HttpRequest → Routed
dispatch routes data_bytes r =
    elim (lookup (route_key (take r.method_len data_bytes) (pure_path data_bytes r)) routes) [
      | some handler ↦ handled handler r
      | none ↦ not_found
    ]

unfoldable pub on_http_packet : Routes → List ℕ → List ℕ → Routed
on_http_packet routes data_bytes beyond = elim (request_line data_bytes) [
  | none ↦ dropped
  | some (method_len, path_len) ↦ elim (read_request data_bytes beyond method_len path_len) [
    | none ↦ dropped
    | some r ↦ dispatch routes data_bytes r
  ]
]
