-- ===== src/Wire/Bodies.antt =====
-- The lines of a body, read back by from_string (src/http/request.cpp and src/http/response.cpp).
use http_web_framework.Prelude.{
  All, List, [], ap, append_assoc, arith, drop, false, length, length-drop, lt→ltb, map, refl, some,
  suc, sym, ℕ, ◌++◌, ◌+◌, ◌-◌, ◌<◌, ◌∙◌, ◌∷◌, ◌≡◌,
}
use http_web_framework.Text.{
  Bytes, IsDigit, IsTrimmed, Lacks, codes, empty, get_lines, is_space, pieces, pieces_last,
  pieces_piece, read_lines, read_lines_line, strip_return, to_string, to_string-IsDigit, trim_back,
  trim_front,
}
use http_web_framework.Types.{HttpHeader}
use http_web_framework.Wire.{join_lines, print_headers, read_body}
use http_web_framework.Wire.Headers.{
  IsLine, empty-append-cons, line_of, line_of-Lacks, print_headers_line,
}

-- A line that is read as it is: no line feed in it, and no return at its end.
unfoldable pub IsBodyLine : Bytes → Type 0
IsBodyLine l = Lacks b'\n' l × (strip_return l ≡ l)

-- The lines of a body that is read back: at least one, the last not empty.
unfoldable pub IsBody : List Bytes → Type 0
IsBody [] = ⊥
IsBody (l ∷ []) = IsBodyLine l × (empty l ≡ false)
IsBody (l ∷ m ∷ ls) = IsBodyLine l × IsBody (m ∷ ls)

read_lines-join_lines : (ls : List Bytes) → IsBody ls → read_lines (join_lines ls) ≡ ls
unfolding IsBody IsBodyLine join_lines read_lines get_lines
read_lines-join_lines [] h = absurd h
read_lines-join_lines ([] ∷ []) h = ground arith
read_lines-join_lines ((c ∷ l) ∷ []) ((lacks, kept), full) =
    ap (map strip_return) (pieces_last b'\n' c l lacks) ∙ ap (λ x. x ∷ []) kept
read_lines-join_lines (l ∷ m ∷ ls) ((lacks, kept), rest) =
    ap (map strip_return) (pieces_piece b'\n' l (join_lines (m ∷ ls)) lacks)
    ∙ ap (λ x. x ∷ map strip_return (pieces b'\n' (join_lines (m ∷ ls)))) kept
    ∙ ap (λ x. l ∷ x) (read_lines-join_lines (m ∷ ls) rest)

pub empty-join_lines : (ls : List Bytes) → IsBody ls → empty (join_lines ls) ≡ false
unfolding IsBody join_lines
empty-join_lines [] h = absurd h
empty-join_lines (l ∷ []) h = h.1
empty-join_lines (l ∷ m ∷ ls) h = empty-append-cons l (join_lines (m ∷ ls)) b'\n'

-- The lines behind the headers and the empty line are those of the body.
drop-read_lines :
    (hs : List HttpHeader) (body : Bytes)
    → All IsLine hs
    → drop (suc (length hs)) (read_lines (print_headers hs ++ b'\r' ∷ b'\n' ∷ body))
      ≡ read_lines body
unfolding print_headers
drop-read_lines [] body ok = ap (drop 1) (read_lines_line [] body tt)
drop-read_lines (h ∷ hs) body ok =
    ap (λ t. drop (suc (suc (length hs))) (read_lines t))
      (print_headers_line h hs (b'\r' ∷ b'\n' ∷ body))
    ∙ ap (drop (suc (suc (length hs)))) (
        read_lines_line (line_of h) (print_headers hs ++ b'\r' ∷ b'\n' ∷ body)
          (line_of-Lacks h ok.0))
    ∙ drop-read_lines hs body ok.1

read_body_lines :
    (first : Bytes) (lines ls : List Bytes) (n : ℕ)
    → drop (suc n) lines ≡ ls
    → 0 < length ls
    → read_body (1 + n) (first ∷ lines) ≡ some (join_lines ls)
unfolding read_body
read_body_lines first lines ls n e some_line =
    let count : length lines - suc n ≡ length ls = sym (length-drop (suc n) lines) ∙ ap length e in
    let within = lt→ltb (1 + n + 1) (length (first ∷ lines)) (omega (arith, count)) in
    let next : 1 + n + 1 ≡ suc (suc n) = omega arith in rw (within, next, e) refl

some_lines : (ls : List Bytes) → IsBody ls → 0 < length ls
unfolding IsBody
some_lines [] h = absurd h
some_lines (l ∷ ls) h = omega arith

-- The body behind the headers is found again, if each header fits in a line.
pub read_body-join_lines :
    (first : Bytes) (hs : List HttpHeader) (ls : List Bytes)
    → All IsLine hs
    → IsBody ls
    → read_body
        (1 + length hs)
        (first ∷ read_lines (print_headers hs ++ b'\r' ∷ b'\n' ∷ join_lines ls))
      ≡ some (join_lines ls)
read_body-join_lines first hs ls ok body =
    read_body_lines first (read_lines (print_headers hs ++ b'\r' ∷ b'\n' ∷ join_lines ls)) ls
      (length hs) (drop-read_lines hs (join_lines ls) ok ∙ read_lines-join_lines ls body)
      (some_lines ls body)

-- A text with no white space in it is left alone by trimming.
trim_back_word : (s : Bytes) → All (λ c. is_space c ≡ false) s → trim_back s ≡ s
unfolding trim_back
trim_back_word [] h = refl
trim_back_word (c ∷ s) (h, hs) = ground (arith, trim_back_word s hs)

word-IsTrimmed : (s : Bytes) → All (λ c. is_space c ≡ false) s → IsTrimmed s
unfolding trim_front
word-IsTrimmed [] h = (refl, trim_back_word [] tt)
word-IsTrimmed (c ∷ s) h = (ground (arith, h.0), trim_back_word (c ∷ s) h)

pub digits_word : (s : Bytes) → All IsDigit s → All (λ c. is_space c ≡ false) s
unfolding is_space
digits_word [] h = tt
digits_word (c ∷ s) (h, hs) = (ground (arith, h), digits_word s hs)

pub digits_line : (s : Bytes) → All IsDigit s → Lacks b'\n' s
digits_line [] h = tt
digits_line (c ∷ s) h = (omega (arith, h.0), digits_line s h.1)

-- The header that to_string of a request writes in front of a body.
abbrev pub length_header : ℕ → HttpHeader
length_header n = record { name = codes "Content-Length"; value = to_string n }

pub length_header-IsLine : (n : ℕ) → IsLine (length_header n)
length_header-IsLine n = record {
  no_colon = ground arith;
  name_line = ground arith;
  value_line = digits_line (to_string n) (to_string-IsDigit n);
  trimmed = word-IsTrimmed (to_string n) (digits_word (to_string n) (to_string-IsDigit n));
}

pub print_headers-append :
    (hs ks : List HttpHeader) → print_headers (hs ++ ks) ≡ print_headers hs ++ print_headers ks
unfolding print_headers
print_headers-append [] ks = refl
print_headers-append (h ∷ hs) ks =
    ap (λ s. h.name ++ (codes ": " ++ (h.value ++ (b'\r' ∷ b'\n' ∷ s))))
      (print_headers-append hs ks)
    ∙ simp append_assoc
