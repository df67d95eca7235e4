-- ===== src/Request/BodyTrip.antt =====
-- What from_string of src/http/request.cpp reads of the text that to_string writes for a request with
-- a body.
use http_web_framework.Prelude.{
  All, All-append, List, [], ap, append_assoc, length, some, sym, ℕ, ◌++◌, ◌+◌, ◌∙◌, ◌∷◌, ◌≡◌,
}
use http_web_framework.Text.{Bytes, read_lines, read_lines_line, size}
use http_web_framework.Types.{HttpHeader}
use http_web_framework.Wire.{join_lines, print_headers, read_body, read_headers}
use http_web_framework.Wire.Bodies.{
  IsBody, empty-join_lines, length_header, length_header-IsLine, print_headers-append,
  read_body-join_lines,
}
use http_web_framework.Wire.Headers.{IsLine, add_all, read_headers-print_headers}
use http_web_framework.Wire.FirstLine.{IsKnown, IsWord}
use http_web_framework.Request.{Request, add_header, body_as_string, set_body}
use http_web_framework.Request.Wire.{
  parse_lines, parse_request, print_request, read_request_line, request_line, set_read_body,
}
use http_web_framework.Request.Uri.{parse_uri}
use http_web_framework.Request.Query.{parse_query_string}
use http_web_framework.Request.Cookies.{parse_cookies}
use http_web_framework.Request.RoundTrip.{
  finish, read_request_line-request_line, request_line-Lacks,
}

parse_lines_body :
    (fresh r : Request) (first body : Bytes) (lines : List Bytes) (header_end : ℕ)
    → read_headers add_header 1 lines (read_request_line first fresh) ≡ (r, header_end)
    → read_body header_end (first ∷ lines) ≡ some body
    → parse_lines fresh (first ∷ lines) ≡ finish (set_body body r)
unfolding parse_lines set_read_body finish
parse_lines_body fresh r first body lines header_end read has_body =
    ap (λ p. finish (set_read_body (read_body p.1 (first ∷ lines)) p.0)) read
    ∙ ap (λ o. finish (set_read_body o r)) has_body

-- The headers of a request that has a body, as to_string writes them.
abbrev pub sent_headers : Request → List Bytes → List HttpHeader
sent_headers r ls = r.headers ++ length_header (size (join_lines ls)) ∷ []

-- The text of such a request.
print_request_body :
    (r : Request) (ls : List Bytes)
    → IsBody ls
    → print_request (record r { body = join_lines ls })
      ≡ request_line r
        ++ (b'\r' ∷ b'\n' ∷ (print_headers (sent_headers r ls) ++ (b'\r' ∷ b'\n' ∷ join_lines ls)))
unfolding print_request request_line body_as_string print_headers
print_request_body r ls body =
    let length_line = length_header (size (join_lines ls)) ∷ [] in
    rw (empty-join_lines ls body) (
      ap (λ t. request_line r ++ b'\r' ∷ b'\n' ∷ t)
        (sym (
            append_assoc (print_headers r.headers) (print_headers length_line)
              (b'\r' ∷ b'\n' ∷ join_lines ls))
          ∙ ap (λ t. t ++ b'\r' ∷ b'\n' ∷ join_lines ls)
              (sym (print_headers-append r.headers length_line))))

-- A request with a body of lines is read back but for its method: the address, the version, the
-- headers with the length that to_string adds, and the body; if the address is a word, the version is
-- 1.0 or 1.1, each header fits in a line, the last line of the body is not empty, and no line of it
-- ends in a return.
pub parse_request-print_body :
    (r fresh : Request) (ls : List Bytes)
    → IsWord r.uri
    → IsKnown r.version
    → All IsLine r.headers
    → IsBody ls
    → parse_request fresh (print_request (record r { body = join_lines ls }))
      ≡ parse_cookies (
          parse_query_string (
            parse_uri (
              set_body (join_lines ls) (
                add_all add_header
                  (sent_headers r ls)
                  (record fresh { uri = r.uri; version = r.version })))))
unfolding parse_request finish
parse_request-print_body r fresh ls word known lines body =
    let hs = sent_headers r ls in
    let all_lines : All IsLine hs =
      All-append IsLine r.headers (length_header (size (join_lines ls)) ∷ []) lines
        (length_header-IsLine (size (join_lines ls)), tt) in
    let tail = print_headers hs ++ b'\r' ∷ b'\n' ∷ join_lines ls in
    let started : Request = record fresh { uri = r.uri; version = r.version } in
    ap (parse_request fresh) (print_request_body r ls body)
    ∙ ap (parse_lines fresh)
        (read_lines_line (request_line r) tail (request_line-Lacks r word known))
    ∙ parse_lines_body fresh (add_all add_header hs started) (request_line r) (join_lines ls)
        (read_lines tail) (1 + length hs)
        (ap (read_headers add_header 1 (read_lines tail))
            (read_request_line-request_line r fresh word known)
          ∙ read_headers-print_headers add_header hs 1 started (join_lines ls) all_lines)
        (read_body-join_lines (request_line r) hs ls all_lines body)
