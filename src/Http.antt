-- ===== src/Http.antt =====
-- Netlib/TcpClientHttp.cpp, ParseHttpHeaders (HttpServiceImplementer::ParseHttpHeaders is the same
-- code): the header lines of a request. `text` is the C string at data, the bytes before its terminator, and
-- pointers into it are offsets.
pub mod Bounds
pub mod Fields
pub mod Split
pub mod Drained
pub mod Returns
pub mod Response
pub mod Numbers
pub mod Lines
pub mod Answer
pub mod Queue
pub mod Held
pub mod Handover
pub mod Router
pub mod Requests
mod Tests
mod Runs
mod QueueRuns
use iocp_netlib.Base.{
  ℕ, zero, suc, ◌+◌, ◌-◌, Bool, true, false, ◌&&◌, Option, none, some, List, [], ◌∷◌, length, take,
  drop, ltb, ◌==◌, if◌then◌else◌,
}

pub record HttpHeader : Type 0 where
  pub key : ℕ
  pub key_len : ℕ
  pub value : ℕ
  pub value_len : ℕ

abbrev pub starts_with : List ℕ → List ℕ → Bool
starts_with [] s = true
starts_with (p ∷ ps) [] = false
starts_with (p ∷ ps) (x ∷ xs) = (p == x) && starts_with ps xs

-- strstr, as an offset
abbrev pub strstr : List ℕ → List ℕ → Option ℕ
strstr pat [] = if starts_with pat [] then some 0 else none
strstr pat (x ∷ xs) =
    if starts_with pat (x ∷ xs)
    then some 0
    else elim (strstr pat xs) [ none ↦ none | some k ↦ some (suc k) ]

-- memchr, as an offset
abbrev pub memchr : ℕ → List ℕ → Option ℕ
memchr c [] = none
memchr c (x ∷ xs) =
    if x == c then some 0 else elim (memchr c xs) [ none ↦ none | some k ↦ some (suc k) ]

-- How many spaces the list begins with.
abbrev pub spaces : List ℕ → ℕ
spaces [] = 0
spaces (x ∷ xs) = if x == 32 then suc (spaces xs) else 0

abbrev pub crlf : List ℕ
crlf = 13 ∷ 10 ∷ []

abbrev pub blank_line : List ℕ
blank_line = 13 ∷ 10 ∷ 13 ∷ 10 ∷ []

-- The header of the line of `k` bytes at `p`, with its colon at offset `c`.
abbrev pub header_at : List ℕ → ℕ → ℕ → ℕ → HttpHeader
header_at text p k c =
    let v = c + 1 + spaces (drop (c + 1) (take k (drop p text))) in
    record { key = p; key_len = c; value = p + v; value_len = k - v }

-- The loop over the lines, on fuel: each line takes at least the two bytes of its end.
unfoldable pub parse_lines : ℕ → List ℕ → ℕ → ℕ → Option (List HttpHeader)
parse_lines zero text end p = none
parse_lines (suc fuel) text end p =
    if ltb p end
    then elim (strstr crlf (drop p text)) [
      | none ↦ some []
      | some k ↦ elim (parse_lines fuel text end (p + k + 2)) [
        | none ↦ none
        | some hs ↦ elim (memchr 58 (take k (drop p text))) [
          | none ↦ some hs
          | some c ↦ some (header_at text p k c ∷ hs)
        ]
      ]
    ]
    else some []

-- ParseHttpHeaders: the headers and headerSize, or `none` for false. The outer `none` is a lack of
-- fuel, which `Bounds` shows not to happen.
unfoldable pub parse_http_headers : List ℕ → Option (Option (List HttpHeader × ℕ))
parse_http_headers text = elim (strstr blank_line text) [
  | none ↦ some none
  | some end ↦ elim (strstr crlf text) [
    | none ↦ some none
    | some first ↦ elim (parse_lines (suc end) text end (first + 2)) [
      | none ↦ none
      | some hs ↦ some (some (hs, end + 4))
    ]
  ]
]
