-- ===== src/Wire/Headers.antt =====
-- The header lines that print_headers writes, read back by the loop of from_string
-- (src/http/request.cpp and src/http/response.cpp).
use http_web_framework.Prelude.{
  All, All-append, List, [], ap, append_assoc, arith, drop, drop-append-cons, false, length, none,
  refl, some, suc, sym, take-append, ℕ, ◌++◌, ◌+◌, ◌∙◌, ◌∷◌, ◌≡◌,
}
use http_web_framework.Text.{
  Bytes, IsTrimmed, Lacks, empty, find-append, is_space, read_lines, read_lines_line, substr,
  substr_from, trim_back, trim_front,
}
use http_web_framework.Types.{HttpHeader}
use http_web_framework.Wire.{print_headers, read_header, read_headers}

-- A header that one line can carry: no ':' in its name, no line feed, and no white space around its
-- value.
pub record IsLine (h : HttpHeader) : Type 0 where
  pub no_colon : Lacks b':' h.name
  pub name_line : Lacks b'\n' h.name
  pub value_line : Lacks b'\n' h.value
  pub trimmed : IsTrimmed h.value

abbrev pub line_of : HttpHeader → Bytes
line_of h = h.name ++ b':' ∷ b' ' ∷ h.value

pub print_headers_line :
    (h : HttpHeader) (hs : List HttpHeader) (rest : Bytes)
    → print_headers (h ∷ hs) ++ rest ≡ line_of h ++ b'\r' ∷ b'\n' ∷ (print_headers hs ++ rest)
unfolding print_headers
print_headers_line h hs rest =
    let written = b'\r' ∷ b'\n' ∷ print_headers hs in
    append_assoc h.name (b':' ∷ b' ' ∷ (h.value ++ written)) rest
    ∙ ap (λ t. h.name ++ b':' ∷ b' ' ∷ t) (append_assoc h.value written rest)
    ∙ sym (append_assoc h.name (b':' ∷ b' ' ∷ h.value) (written ++ rest))

pub line_of-Lacks : (h : HttpHeader) → IsLine h → Lacks b'\n' (line_of h)
line_of-Lacks h ok = All-append _ h.name _ ok.name_line (omega arith, (omega arith, ok.value_line))

pub empty-append-cons : (n t : Bytes) (c : ℕ) → empty (n ++ c ∷ t) ≡ false
empty-append-cons [] t c = refl
empty-append-cons (x ∷ n) t c = refl

pub length-read_lines :
    (hs : List HttpHeader) (rest : Bytes)
    → All IsLine hs
    → length (read_lines (print_headers hs ++ rest)) ≡ length hs + length (read_lines rest)
unfolding print_headers
length-read_lines [] rest ok = omega arith
length-read_lines (h ∷ hs) rest ok =
    ap (λ t. length (read_lines t)) (print_headers_line h hs rest)
    ∙ ap length (read_lines_line (line_of h) (print_headers hs ++ rest) (line_of-Lacks h ok.0))
    ∙ ap suc (length-read_lines hs rest ok.1)
    ∙ omega arith

module _ {ℓ} {S : Type ℓ} (add : Bytes → Bytes → S → S) where
  read_header_line :
      (h : HttpHeader) (s : S) → IsLine h → read_header add (line_of h) s ≡ add h.name h.value s
  unfolding read_header trim_front is_space
  read_header_line h s ok =
      let next : length h.name + 1 ≡ suc (length h.name) = omega arith in
      let behind : drop (length h.name + 1) (line_of h) ≡ b' ' ∷ h.value =
        rw next (drop-append-cons h.name b':' (b' ' ∷ h.value)) in
      let value : trim_back (trim_front (drop (length h.name + 1) (line_of h))) ≡ h.value =
        ap (λ t. trim_back (trim_front t)) behind ∙ ap trim_back ok.trimmed.0 ∙ ok.trimmed.1 in
      ap
        (λ o. elim o [
          | none ↦ s
          | some p ↦
              add (substr (line_of h) 0 p)
                (trim_back (trim_front (substr_from (line_of h) (p + 1)))) s
        ])
        (find-append b':' h.name (b' ' ∷ h.value) ok.no_colon)
      ∙ ap (λ n. add n (trim_back (trim_front (drop (length h.name + 1) (line_of h)))) s)
          (take-append h.name (b':' ∷ b' ' ∷ h.value))
      ∙ ap (λ v. add h.name v s) value

  read_headers_line :
      (h : HttpHeader) (lines : List Bytes) (i : ℕ) (s : S)
      → IsLine h
      → read_headers add i (line_of h ∷ lines) s
        ≡ read_headers add (i + 1) lines (add h.name h.value s)
  unfolding read_headers
  read_headers_line h lines i s ok =
      rw (empty-append-cons h.name (b' ' ∷ h.value) b':')
        (ap (read_headers add (i + 1) lines) (read_header_line h s ok))

  pub add_all : List HttpHeader → S → S
  add_all [] s = s
  add_all (h ∷ hs) s = add_all hs (add h.name h.value s)

  -- The headers that were written are added one by one, in their order, and `header_end` is the
  -- number of the empty line behind them, whatever follows it: if each header fits in a line.
  pub read_headers-print_headers :
      (hs : List HttpHeader) (i : ℕ) (s : S) (rest : Bytes)
      → All IsLine hs
      → read_headers add i (read_lines (print_headers hs ++ b'\r' ∷ b'\n' ∷ rest)) s
        ≡ (add_all hs s, i + length hs)
  unfolding read_headers print_headers add_all
  read_headers-print_headers [] i s rest ok =
      let end : i ≡ i + 0 = omega arith in
      ap (λ ls. read_headers add i ls s) (read_lines_line [] rest tt) ∙ ap (λ n. (s, n)) end
  read_headers-print_headers (h ∷ hs) i s rest ok =
      let end : i + 1 + length hs ≡ i + suc (length hs) = omega arith in
      let tail = print_headers hs ++ b'\r' ∷ b'\n' ∷ rest in
      ap (λ t. read_headers add i (read_lines t) s) (print_headers_line h hs (b'\r' ∷ b'\n' ∷ rest))
      ∙ ap (λ ls. read_headers add i ls s) (read_lines_line (line_of h) tail (line_of-Lacks h ok.0))
      ∙ read_headers_line h (read_lines tail) i s ok.0
      ∙ read_headers-print_headers hs (i + 1) (add h.name h.value s) rest ok.1
      ∙ ap (λ n. (add_all (h ∷ hs) s, n)) end
