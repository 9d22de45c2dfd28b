-- ===== src/Http/Response.antt =====
-- Netlib/TcpClient.cpp, PostSendHttp, and include/net/HttpService.h, HttpResponse: the text of a response.
use iocp_netlib.Base.{
  ℕ, zero, suc, ◌+◌, ◌/◌, ◌%◌, List, [], ◌∷◌, ◌++◌, length, ltb, ◌==◌, if◌then◌else◌,
}
use iocp_netlib.Http.{crlf}
use iocp_netlib.Http.Fields.{content_length}
use iocp_netlib.Http.Split.{c_string}

pub record HttpResponse : Type 0 where
  pub status : ℕ
  pub body : List ℕ
  pub headers : List ℕ

-- The constructor
abbrev pub fresh : HttpResponse
fresh = record { status = 200; body = []; headers = [] }

unfoldable pub set_status : ℕ → HttpResponse → HttpResponse
set_status status r = record r { status = status }

unfoldable pub set_body : List ℕ → HttpResponse → HttpResponse
set_body body r = record r { body = body }

unfoldable pub add_header : List ℕ → HttpResponse → HttpResponse
add_header h r = record r { headers = r.headers ++ (h ++ crlf) }

-- "OK", "Not Found", "Unknown Error"
abbrev pub ok_text : List ℕ
ok_text = 79 ∷ 75 ∷ []

abbrev pub not_found_text : List ℕ
not_found_text = 78 ∷ 111 ∷ 116 ∷ 32 ∷ 70 ∷ 111 ∷ 117 ∷ 110 ∷ 100 ∷ []

abbrev pub unknown_text : List ℕ
unknown_text = 85 ∷ 110 ∷ 107 ∷ 110 ∷ 111 ∷ 119 ∷ 110 ∷ 32 ∷ 69 ∷ 114 ∷ 114 ∷ 111 ∷ 114 ∷ []

unfoldable pub get_http_status_description : ℕ → List ℕ
get_http_status_description status =
    if status == 200 then ok_text else if status == 404 then not_found_text else unknown_text

-- %u and %d of a number that is not negative, with at most `fuel` digits
unfoldable pub digits : ℕ → ℕ → List ℕ
digits zero n = []
digits (suc fuel) n =
    let rest = digits fuel (n / 10) in
    if ltb n 10 then (48 + n) ∷ [] else rest ++ ((48 + n % 10) ∷ [])

-- A number of 32 bits has at most 10 digits.
abbrev pub max_digits : ℕ
max_digits = 10

-- "HTTP/1.1 "
abbrev pub http_1_1 : List ℕ
http_1_1 = 72 ∷ 84 ∷ 84 ∷ 80 ∷ 47 ∷ 49 ∷ 46 ∷ 49 ∷ 32 ∷ []

unfoldable pub status_line : ℕ → List ℕ
status_line status =
    http_1_1 ++ (digits max_digits status ++ (32 ∷ get_http_status_description status))

unfoldable pub length_line : ℕ → List ℕ
length_line size = content_length ++ (58 ∷ 32 ∷ digits max_digits size)

-- The format of _snprintf_s; %s ends at the first zero byte.
unfoldable pub response_text : HttpResponse → List ℕ
response_text r =
    status_line r.status
    ++ (crlf
        ++ (length_line (length r.body)
            ++ (crlf ++ (c_string r.headers ++ (crlf ++ c_string r.body)))))
