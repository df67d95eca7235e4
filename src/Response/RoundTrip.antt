-- ===== src/Response/RoundTrip.antt =====
-- What from_string of src/http/response.cpp reads of the text that to_string writes for a response
-- without a body and cookies.
use http_web_framework.Prelude.{
  All, All-append, List, [], ap, arith, length, lt→ltb, none, refl, some, ℕ, ◌%◌, ◌++◌, ◌+◌, ◌<◌,
  ◌^◌, ◌∙◌, ◌∷◌, ◌≡◌,
}
use http_web_framework.Text.{
  Bytes, Lacks, break_word, codes, empty, is_space, read_lines, read_lines_line, read_word,
  same_text, stoi_mod, strtol-to_string, to_string, to_string-IsDigit, to_string-cons, trim_front,
}
use http_web_framework.Types.{HttpVersion, http_1_0, http_1_1, http_2_0, http_3_0}
use http_web_framework.Wire.{
  join_lines, print_version, read_version, print_headers, read_body, read_headers,
}
use http_web_framework.Wire.Bodies.{
  digits_line, digits_word, IsBody, empty-join_lines, read_body-join_lines,
}
use http_web_framework.Response.Body.{set_body}
use http_web_framework.Wire.Headers.{IsLine, add_all, length-read_lines, read_headers-print_headers}
use http_web_framework.Wire.FirstLine.{
  IsKnown, IsWord, bodiless, known_1_0, known_1_1, last_line, read_word_uri, version_line,
}
use http_web_framework.Response.{
  body_as_string, Response, add_header, set_status_code, set_status_message, set_version,
}
use http_web_framework.Response.Wire.{
  parse_lines, parse_response, print_response, read_message, read_status_line, status_line,
  store_body, store_status, store_version, print_cookies,
}

read_word_version :
    (v : HttpVersion) (rest : Bytes)
    → IsKnown v
    → read_word (codes "HTTP/" ++ (print_version v ++ b' ' ∷ rest))
      ≡ (codes "HTTP/" ++ print_version v, b' ' ∷ rest)
unfolding read_word break_word trim_front is_space print_version
read_word_version http_1_0 rest known_1_0 = refl
read_word_version http_1_1 rest known_1_1 = refl
read_word_version http_2_0 rest unknown = elim unknown [ ]
read_word_version http_3_0 rest unknown = elim unknown [ ]

read_version-print_version :
    (v : HttpVersion) → IsKnown v → read_version (codes "HTTP/" ++ print_version v) ≡ some v
unfolding read_version print_version same_text
read_version-print_version http_1_0 known_1_0 = refl
read_version-print_version http_1_1 known_1_1 = refl
read_version-print_version http_2_0 unknown = elim unknown [ ]
read_version-print_version http_3_0 unknown = elim unknown [ ]

to_string-IsWord : (n : ℕ) → IsWord (to_string n)
to_string-IsWord n =
    let (c, s, e) = to_string-cons n in
    record { some_byte = ap empty e; no_space = digits_word (to_string n) (to_string-IsDigit n) }

stoi_mod-to_string : (n : ℕ) → n < 2 ^ 16 → stoi_mod 16 10 (to_string n) ≡ some n
unfolding stoi_mod
stoi_mod-to_string n h =
    let small : n % 2 ^ 16 ≡ n = omega (arith, h) in
    rw (strtol-to_string n (omega (arith, h)), stoi_mod)
      (rw (lt→ltb n (2 ^ 31) (omega (arith, h)), small) refl)

read_status_line-status_line :
    (r fresh : Response)
    → IsKnown r.version
    → r.status_code < 2 ^ 16
    → read_status_line (status_line r) fresh
      ≡ some (record fresh {
        version = r.version;
        status_code = r.status_code;
        status_message = r.status_message;
      })
unfolding read_status_line status_line store_status set_status_code set_status_message set_version
    store_version
read_status_line-status_line r fresh known small =
    rw
      (
        read_status_line,
        read_word_version r.version (to_string r.status_code ++ b' ' ∷ r.status_message) known,
        read_word_uri (to_string r.status_code) r.status_message (to_string-IsWord r.status_code),
        stoi_mod-to_string r.status_code small,
        read_version-print_version r.version known,
      )
      refl

status_line-Lacks :
    (r : Response) → IsKnown r.version → Lacks b'\n' r.status_message → Lacks b'\n' (status_line r)
unfolding status_line
status_line-Lacks r known message = All-append _ (codes "HTTP/") _ (ground arith) (
    All-append _ (print_version r.version) _ (version_line r.version known).1.1.1.1.1.1 (
      omega arith,
      All-append _ (to_string r.status_code) _
          (digits_line (to_string r.status_code) (to_string-IsDigit r.status_code))
          (omega arith, message),
    ))

read_message_bodiless :
    (started r : Response) (first : Bytes) (lines : List Bytes) (header_end : ℕ)
    → read_headers add_header 1 lines started ≡ (r, header_end)
    → read_body header_end (first ∷ lines) ≡ none
    → read_message first lines (some started) ≡ some r
unfolding read_message store_body
read_message_bodiless started r first lines header_end read no_body =
    ap (λ p. some (store_body (read_body p.1 (first ∷ lines)) p.0)) read
    ∙ ap (λ o. some (store_body o r)) no_body

-- A response without a body and cookies is read back: the version, the status, its message and the
-- headers that to_string wrote are those of the response that from_string makes, with the rest as in a
-- new response; if the version is 1.0 or 1.1, the status is a 16-bit number, the message is in one
-- line, and each header fits in a line.
pub parse_response-print_response :
    (r fresh : Response)
    → IsKnown r.version
    → r.status_code < 2 ^ 16
    → Lacks b'\n' r.status_message
    → All IsLine r.headers
    → parse_response fresh (print_response (record r { body = []; cookies = [] }))
      ≡ some (
          add_all add_header r.headers (record fresh {
            version = r.version;
            status_code = r.status_code;
            status_message = r.status_message;
          }))
unfolding parse_response print_response status_line parse_lines print_cookies
parse_response-print_response r fresh known small message lines =
    let tail = print_headers r.headers ++ b'\r' ∷ b'\n' ∷ [] in
    let started : Response = record fresh {
      version = r.version;
      status_code = r.status_code;
      status_message = r.status_message;
    } in
    ap (parse_lines fresh)
      (read_lines_line (status_line r) tail (status_line-Lacks r known message))
    ∙ ap (read_message (status_line r) (read_lines tail))
        (read_status_line-status_line r fresh known small)
    ∙ read_message_bodiless started (add_all add_header r.headers started) (status_line r)
        (read_lines tail) (1 + length r.headers)
        (read_headers-print_headers add_header r.headers 1 started [] lines)
        (bodiless (status_line r) (read_lines tail) (length r.headers) (
          length-read_lines r.headers (b'\r' ∷ b'\n' ∷ []) lines
          ∙ ap (λ n. length r.headers + n) last_line))

read_message_body :
    (started r : Response) (first body : Bytes) (lines : List Bytes) (header_end : ℕ)
    → read_headers add_header 1 lines started ≡ (r, header_end)
    → read_body header_end (first ∷ lines) ≡ some body
    → read_message first lines (some started) ≡ some (set_body body r)
unfolding read_message store_body
read_message_body started r first body lines header_end read has_body =
    ap (λ p. some (store_body (read_body p.1 (first ∷ lines)) p.0)) read
    ∙ ap (λ o. some (store_body o r)) has_body

-- A response with a body of lines and without cookies is read back, the body too: the last line of
-- the body is not empty, and no line of it ends in a return; the version is 1.0 or 1.1, the status is
-- a 16-bit number, the message is in one line, and each header fits in a line. The body is set as
-- set_body sets it, with the length in its header.
pub parse_response-print_body :
    (r fresh : Response) (ls : List Bytes)
    → IsKnown r.version
    → r.status_code < 2 ^ 16
    → Lacks b'\n' r.status_message
    → All IsLine r.headers
    → IsBody ls
    → parse_response fresh (print_response (record r { body = join_lines ls; cookies = [] }))
      ≡ some (
          set_body (join_lines ls) (
            add_all add_header r.headers (record fresh {
              version = r.version;
              status_code = r.status_code;
              status_message = r.status_message;
            })))
unfolding parse_response print_response status_line parse_lines print_cookies body_as_string
parse_response-print_body r fresh ls known small message lines body =
    let tail = print_headers r.headers ++ b'\r' ∷ b'\n' ∷ join_lines ls in
    let started : Response = record fresh {
      version = r.version;
      status_code = r.status_code;
      status_message = r.status_message;
    } in
    rw (empty-join_lines ls body) (
      ap (parse_lines fresh)
        (read_lines_line (status_line r) tail (status_line-Lacks r known message))
      ∙ ap (read_message (status_line r) (read_lines tail))
          (read_status_line-status_line r fresh known small)
      ∙ read_message_body started (add_all add_header r.headers started) (status_line r)
          (join_lines ls) (read_lines tail) (1 + length r.headers)
          (read_headers-print_headers add_header r.headers 1 started (join_lines ls) lines)
          (read_body-join_lines (status_line r) r.headers ls lines body))
