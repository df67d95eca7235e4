-- ===== src/Wire.antt =====
-- What the text forms of requests and responses share: the loops over header lines and body lines
-- that stand in both `to_string` and both `from_string` (src/http/request.cpp and
-- src/http/response.cpp).
pub mod Headers
pub mod FirstLine
pub mod Bodies
use http_web_framework.Prelude.{
  List, Option, [], drop, if◌then◌else◌, length, ltb, none, some, ℕ, ◌++◌, ◌+◌, ◌∷◌,
}
use http_web_framework.Text.{
  Bytes, codes, empty, same_text, find, stream, substr, substr_from, trim_back, trim_front,
}
use http_web_framework.Types.{HttpHeader, HttpVersion, http_1_0, http_1_1, http_2_0, http_3_0}

abbrev pub crlf : Bytes
crlf = b'\r' ∷ b'\n' ∷ []

-- The version behind `HTTP/`; HTTP/3 has no branch.
unfoldable pub print_version : HttpVersion → Bytes
print_version http_1_0 = codes "1.0"
print_version http_1_1 = codes "1.1"
print_version http_2_0 = codes "2.0"
print_version http_3_0 = []

-- `for (const auto& header : headers_) oss << header.name << ": " << header.value << "\r\n";`
unfoldable pub print_headers : List HttpHeader → Bytes
print_headers [] = []
print_headers (h ∷ hs) = stream (h.name ∷ codes ": " ∷ h.value ∷ crlf ∷ print_headers hs ∷ [])

-- The version that a request or status line names, if it is one of two.
unfoldable pub read_version : Bytes → Option HttpVersion
read_version s =
    if same_text s (codes "HTTP/1.0")
    then some http_1_0
    else if same_text s (codes "HTTP/1.1")
    then some http_1_1
    else none

module _ {ℓ} {S : Type ℓ} (add : Bytes → Bytes → S → S) where
  -- One header line: a line with no colon is passed over.
  unfoldable pub read_header : Bytes → S → S
  read_header line s = elim (find b':' line) [
    | none ↦ s
    | some p ↦ add (substr line 0 p) (trim_back (trim_front (substr_from line (p + 1)))) s
  ]

  -- `for (i = 1; i < lines.size(); ++i)`, from line `i` on: the state, and `header_end`, which stays
  -- 1 if there is no empty line.
  unfoldable pub read_headers : ℕ → List Bytes → S → S × ℕ
  read_headers i [] s = (s, 1)
  read_headers i (l ∷ ls) s =
      let rest = read_headers (i + 1) ls (read_header l s) in if empty l then (s, i) else rest

-- The lines of the body, with a line feed between them.
unfoldable pub join_lines : List Bytes → Bytes
join_lines [] = []
join_lines (l ∷ []) = l
join_lines (l ∷ m ∷ ls) = l ++ b'\n' ∷ join_lines (m ∷ ls)

-- `if (header_end + 1 < lines.size()) …`: the body, where there is a line for it.
unfoldable pub read_body : ℕ → List Bytes → Option Bytes
read_body header_end lines =
    if ltb (header_end + 1) (length lines)
    then some (join_lines (drop (header_end + 1) lines))
    else none
