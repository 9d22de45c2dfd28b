-- ===== src/Http/Answer.antt =====
-- Netlib/TcpClient.cpp, PostSendHttp, read by Netlib/TcpClientHttp.cpp: who parses a response finds its
-- length and its body.
use iocp_netlib.Base.{
  ℕ, suc, ◌+◌, ◌-◌, ◌^◌, ◌<◌, ◌≡◌, refl, sym, ap, ap₂, ◌∙◌, true, false, some, List, [], ◌∷◌, ◌++◌,
  append-nil, append_assoc, arith, length, take, drop, ltb, lt→ltb, take-append_length,
  if◌then◌else◌, ◌==◌,
}
use iocp_netlib.Http.{
  HttpHeader, strstr, memchr, spaces, crlf, blank_line, header_at, parse_lines, parse_http_headers,
}
use iocp_netlib.Http.Bounds.{drop-drop, strstr-starts_with, parse_lines-AllInHead}
use iocp_netlib.Http.Fields.{
  content_length, strnicmp_eq, header_key_equal, get_content_length, atoi,
}
use iocp_netlib.Http.Split.{c_string}
use iocp_netlib.Http.Response.{
  HttpResponse, fresh, set_status, set_body, add_header, digits, max_digits, status_line,
  length_line, response_text,
}
use iocp_netlib.Http.Numbers.{digits-head, atoi-digits, max_small}
use iocp_netlib.Http.Lines.{
  NoZero, AllLines, c_string-NoZero, message, lines_text, lines_text-message, lines_text-NoZero,
  strstr_past, head_len, blank_at, drop_past, drop_head, status_line-IsLine, length_line-IsLine,
}

-- A response with these header lines.
abbrev pub with_headers : List (List ℕ) → HttpResponse → HttpResponse
with_headers [] r = r
with_headers (l ∷ ls) r = with_headers ls (add_header l r)

headers-with_headers :
    (ls : List (List ℕ)) (r : HttpResponse)
    → ((with_headers ls r).headers ≡ r.headers ++ lines_text ls)
      × ((with_headers ls r).status ≡ r.status)
      × ((with_headers ls r).body ≡ r.body)
unfolding add_header
headers-with_headers [] r = (sym (append-nil r.headers), refl, refl)
headers-with_headers (l ∷ ls) r =
    let (h, s, b) = headers-with_headers ls (add_header l r) in
    (
      h
          ∙ append_assoc r.headers (l ++ crlf) (lines_text ls)
          ∙ ap (λ t. r.headers ++ t) (append_assoc l crlf (lines_text ls)),
      s,
      b,
    )

-- One line with a colon, and the call as a whole.
parse_line :
    (fuel : ℕ) (text : List ℕ) (end p k c : ℕ) (hs : List HttpHeader)
    → ltb p end ≡ true
    → strstr crlf (drop p text) ≡ some k
    → memchr 58 (take k (drop p text)) ≡ some c
    → parse_lines fuel text end (p + k + 2) ≡ some hs
    → parse_lines (suc fuel) text end p ≡ some (header_at text p k c ∷ hs)
unfolding parse_lines
parse_line fuel text end p k c hs before line colon rest = rw (before, line, rest, colon) refl

parse_all :
    (text : List ℕ) (end first : ℕ) (hs : List HttpHeader)
    → strstr blank_line text ≡ some end
    → strstr crlf text ≡ some first
    → parse_lines (suc end) text end (first + 2) ≡ some hs
    → parse_http_headers text ≡ some (some (hs, end + 4))
unfolding parse_http_headers
parse_all text end first hs blank line lines = rw (parse_http_headers, blank, line, lines) refl

-- The first line of the head behind the status line is the Content-Length.
module _ (status size : ℕ) (ls : List (List ℕ)) (body : List ℕ) (small : size < 2 ^ 31)
    (ok : AllLines ls) where
  S : List ℕ
  S = status_line status

  L : List ℕ
  L = length_line size

  text : List ℕ
  text = S ++ (crlf ++ message (L ∷ ls) body)

  text_lem : status_line status ++ (crlf ++ message (length_line size ∷ ls) body) ≡ text
  unfolding text S L
  text_lem = refl

  all_ok : AllLines (L ∷ ls)
  unfolding L length_line
  all_ok = ((λ e. cc), length_line-IsLine size, ok)

  -- The offset of the blank line
  end : ℕ
  end = length S + head_len (L ∷ ls)

  blank : strstr blank_line text ≡ some end
  unfolding text end S
  blank =
      strstr_past (10 ∷ 13 ∷ 10 ∷ []) S (crlf ++ message (L ∷ ls) body) (head_len (L ∷ ls))
        (status_line-IsLine status) (blank_at (L ∷ ls) body all_ok)

  first : strstr crlf text ≡ some (length S)
  unfolding text S
  first =
      strstr_past (10 ∷ []) S (crlf ++ message (L ∷ ls) body) 0 (status_line-IsLine status) refl
      ∙ ap some (omega arith)

  behind : drop (length S + 2) text ≡ message (L ∷ ls) body
  unfolding text
  behind = drop_past S (crlf ++ message (L ∷ ls) body) 2 (length S + 2) refl

  line_end : strstr crlf (drop (length S + 2) text) ≡ some (length L)
  unfolding L
  line_end =
      ap (strstr crlf) behind
      ∙ strstr_past (10 ∷ []) L (crlf ++ message ls body) 0 (length_line-IsLine size) refl
      ∙ ap some (omega arith)

  line : take (length L) (drop (length S + 2) text) ≡ L
  line =
      ap (take (length L)) behind ∙ take-append_length (length L) L (crlf ++ message ls body) refl

  -- The head of the first line: "Content-Length: " and the digits.
  key_text : List ℕ
  key_text = content_length ++ (58 ∷ 32 ∷ [])

  length-L : length L ≡ 16 + length (digits max_digits size)
  unfolding L length_line
  length-L = omega arith

  colon : memchr 58 (take (length L) (drop (length S + 2) text)) ≡ some 14
  unfolding L length_line
  colon = ap (memchr 58) line

  one_space : spaces (drop 15 (take (length L) (drop (length S + 2) text))) ≡ 1
  unfolding L length_line
  one_space =
      let (c, cs, e, ge, le) = digits-head 9 size (omega (arith, max_small)) in
      let not_space : (c == 32) ≡ false = ground arith in
      ap (λ t. spaces (drop 15 t)) line
      ∙ ap (λ t. suc (spaces t)) e
      ∙ ap (λ b. suc (if b then suc (spaces cs) else 0)) not_space

  the_header : HttpHeader
  the_header = record {
    key = length S + 2;
    key_len = 14;
    value = length S + 2 + 16;
    value_len = length L - 16;
  }

  header_at-line : header_at text (length S + 2) (length L) 14 ≡ the_header
  unfolding the_header
  header_at-line =
      ap
        (λ (n : ℕ). record {
          key = length S + 2;
          key_len = 14;
          value = length S + 2 + (14 + 1 + n);
          value_len = length L - (14 + 1 + n);
        })
        one_space

  key_equal : header_key_equal text the_header content_length ≡ true
  unfolding header_key_equal the_header L length_line text
  key_equal = ap (λ t. strnicmp_eq t content_length 14) behind

  value_at : drop (length S + 2 + 16) text ≡ digits max_digits size ++ (crlf ++ message ls body)
  unfolding L length_line
  value_at = sym (drop-drop 16 (length S + 2) (length S + 2 + 16) text refl) ∙ ap (drop 16) behind

  value_read : atoi (drop (length S + 2 + 16) text) ≡ size
  value_read = ap atoi value_at ∙ atoi-digits size (10 ∷ message ls body) small

  -- ParseHttpHeaders on the text
  parsed :
      (hs : List HttpHeader) × (parse_http_headers text ≡ some (some (the_header ∷ hs, end + 4)))
  unfolding end
  parsed =
      let (hs, run, _) =
        parse_lines-AllInHead text end (strstr-starts_with blank_line text end blank) end
          (length S + 2 + length L + 2) (omega arith) (omega arith) in
      let before : ltb (length S + 2) end ≡ true =
        lt→ltb (length S + 2) end (omega (arith, length-L)) in
      (
        hs,
        parse_all text end (length S) (the_header ∷ hs) blank first (
            parse_line end text end (length S + 2) (length L) 14 hs before line_end colon run
            ∙ ap (λ h. some (h ∷ hs)) header_at-line),
      )

  -- What get_content_length finds, and what stands behind the head
  content : (hs : List HttpHeader) → get_content_length text (the_header ∷ hs) ≡ size
  unfolding get_content_length the_header
  content hs =
      ap (λ b. if b then atoi (drop (length S + 2 + 16) text) else get_content_length text hs)
        key_equal
      ∙ value_read

  body_at : drop (end + 4) text ≡ body
  unfolding end text
  body_at =
      drop_past S (crlf ++ message (L ∷ ls) body) (head_len (L ∷ ls) + 4)
        (length S + head_len (L ∷ ls) + 4) (omega arith)
      ∙ drop_head (L ∷ ls) body

-- A response with a status, header lines and a body.
abbrev pub response : ℕ → List (List ℕ) → List ℕ → HttpResponse
response status ls body = set_body body (set_status status (with_headers ls fresh))

text_of :
    (r : HttpResponse) (ls : List (List ℕ))
    → r.headers ≡ lines_text ls
    → AllLines ls
    → NoZero r.body
    → response_text r
      ≡ status_line r.status ++ (crlf ++ message (length_line (length r.body) ∷ ls) r.body)
unfolding response_text
text_of r ls h ok clean =
    ap (λ t. status_line r.status ++ (crlf ++ (length_line (length r.body) ++ (crlf ++ t))))
      (ap₂ (λ x y. x ++ (crlf ++ y))
          (ap c_string h ∙ c_string-NoZero (lines_text ls) (lines_text-NoZero ls ok))
          (c_string-NoZero r.body clean)
        ∙ lines_text-message ls r.body)

-- The text that PostSendHttp writes for a response, when it is not cut short, read by ParseHttpHeaders:
-- for any status, header lines that are not empty and hold no carriage return and no zero byte, and a
-- body of less than 2 ^ 31 bytes without a zero byte, the head is found, GetContentLength gives the
-- length of the body, whatever the other headers say, and what follows the head is the body.
pub response-parsed :
    (status : ℕ) (ls : List (List ℕ)) (body : List ℕ)
    → AllLines ls
    → NoZero body
    → length body < 2 ^ 31
    → (hs : List HttpHeader) × (header_size : ℕ) × (parse_http_headers
          (response_text (response status ls body))
        ≡ some (some (hs, header_size)))
      × (get_content_length (response_text (response status ls body)) hs ≡ length body)
      × (drop header_size (response_text (response status ls body)) ≡ body)
unfolding set_body set_status
response-parsed status ls body ok clean small =
    let r : HttpResponse = response status ls body in
    let (made, _, _) = headers-with_headers ls fresh in
    let same : response_text r ≡ text status (length body) ls body small ok =
      text_of r ls made ok clean ∙ text_lem status (length body) ls body small ok in
    let (hs, run) = parsed status (length body) ls body small ok in
    (
      the_header status (length body) ls body small ok ∷ hs,
      end status (length body) ls body small ok + 4,
      ap parse_http_headers same ∙ run,
      ap (λ t. get_content_length t (the_header status (length body) ls body small ok ∷ hs)) same
          ∙ content status (length body) ls body small ok hs,
      ap (drop (end status (length body) ls body small ok + 4)) same
          ∙ body_at status (length body) ls body small ok,
    )
