-- ===== src/Http/Fields.antt =====
-- Netlib/TcpClientHttp.cpp and include/net/HttpService.h: what is read from the headers of a request. A
-- header's key and value are offsets into the C string `text`.
use iocp_netlib.Base.{
  ℕ, zero, suc, ◌+◌, ◌-◌, ◌*◌, ◌%◌, ◌^◌, Bool, true, false, ◌&&◌, ◌||◌, Option, none, some, List,
  [], ◌∷◌, length, drop, ltb, leb, ◌==◌, if◌then◌else◌,
}
use iocp_netlib.Http.{HttpHeader}

-- tolower
abbrev pub lower : ℕ → ℕ
lower c = if leb 65 c && leb c 90 then c + 32 else c

-- _strnicmp(a, b, n) == 0; a string ends with its list, so that its next byte is 0.
abbrev pub strnicmp_eq : List ℕ → List ℕ → ℕ → Bool
strnicmp_eq a b zero = true
strnicmp_eq [] [] (suc n) = true
strnicmp_eq [] (y ∷ ys) (suc n) = false
strnicmp_eq (x ∷ xs) [] (suc n) = false
strnicmp_eq (x ∷ xs) (y ∷ ys) (suc n) = (lower x == lower y) && strnicmp_eq xs ys n

abbrev pub is_digit : ℕ → Bool
is_digit c = leb 48 c && leb c 57

abbrev pub is_white : ℕ → Bool
is_white c = c == 32 || leb 9 c && leb c 13

abbrev pub skip_white : List ℕ → List ℕ
skip_white [] = []
skip_white (c ∷ cs) = let rest = skip_white cs in if is_white c then rest else (c ∷ cs)

-- The number that a row of digits stands for, behind a number that has been read.
abbrev pub read_digits : ℕ → List ℕ → ℕ
read_digits n [] = n
read_digits n (c ∷ cs) =
    let rest = read_digits (n * 10 + (c - 48)) cs in if is_digit c then rest else n

-- atoi, as the bit pattern of an int; a value that does not fit is cut to the range.
abbrev pub atoi_positive : ℕ → ℕ
atoi_positive n = if ltb n (2 ^ 31) then n else 2 ^ 31 - 1

abbrev pub atoi_negative : ℕ → ℕ
atoi_negative n = (2 ^ 32 - (if ltb n (2 ^ 31) then n else 2 ^ 31)) % 2 ^ 32

abbrev pub signed : List ℕ → ℕ
signed [] = 0
signed (c ∷ cs) =
    if c == 45
    then atoi_negative (read_digits 0 cs)
    else if c == 43
    then atoi_positive (read_digits 0 cs)
    else atoi_positive (read_digits 0 (c ∷ cs))

abbrev pub atoi : List ℕ → ℕ
atoi text = signed (skip_white text)

-- "Content-Length", "Connection", "close", "keep-alive"
abbrev pub content_length : List ℕ
content_length = 67 ∷ 111 ∷ 110 ∷ 116 ∷ 101 ∷ 110 ∷ 116 ∷ 45 ∷ 76 ∷ 101 ∷ 110 ∷ 103 ∷ 116 ∷ 104 ∷ []

abbrev pub connection : List ℕ
connection = 67 ∷ 111 ∷ 110 ∷ 110 ∷ 101 ∷ 99 ∷ 116 ∷ 105 ∷ 111 ∷ 110 ∷ []

abbrev pub close : List ℕ
close = 99 ∷ 108 ∷ 111 ∷ 115 ∷ 101 ∷ []

abbrev pub keep_alive : List ℕ
keep_alive = 107 ∷ 101 ∷ 101 ∷ 112 ∷ 45 ∷ 97 ∷ 108 ∷ 105 ∷ 118 ∷ 101 ∷ []

-- HeaderKeyEqual
unfoldable pub header_key_equal : List ℕ → HttpHeader → List ℕ → Bool
header_key_equal text h key =
    if h.key_len == length key then strnicmp_eq (drop h.key text) key (length key) else false

-- GetContentLength, as the bit pattern of an int
unfoldable pub get_content_length : List ℕ → List HttpHeader → ℕ
get_content_length text [] = 0
get_content_length text (h ∷ hs) =
    let rest = get_content_length text hs in
    if header_key_equal text h content_length then atoi (drop h.value text) else rest

unfoldable pub is_connection_close : List ℕ → List HttpHeader → Bool
is_connection_close text [] = false
is_connection_close text (h ∷ hs) =
    let rest = is_connection_close text hs in
    if header_key_equal text h connection
    then (if strnicmp_eq (drop h.value text) close 5 then true else rest)
    else rest

-- HttpHeaders::Find
unfoldable pub find : List ℕ → List ℕ → List HttpHeader → Option HttpHeader
find text name [] = none
find text name (h ∷ hs) =
    let rest = find text name hs in
    if strnicmp_eq (drop h.key text) name h.key_len then some h else rest
