-- ===== src/Request/RoundTrip.antt =====
-- What from_string of src/http/request.cpp reads of the text that to_string writes for a request
-- without a body.
use http_web_framework.Prelude.{
  All, All-append, List, [], ap, arith, length, none, refl, some, ℕ, ◌++◌, ◌+◌, ◌∙◌, ◌∷◌, ◌≡◌,
}
use http_web_framework.Text.{
  Bytes, Lacks, break_word, codes, digits, is_space, read_lines, read_lines_line, read_word,
  same_text, to_string, trim_front,
}
use http_web_framework.Types.{
  HttpMethod, HttpVersion, http_1_0, http_1_1, http_2_0, http_3_0, method_code,
}
use http_web_framework.Request.Wire.{
  parse_lines, parse_request, print_request, set_known_version, set_read_body, read_method,
  read_request_line, request_line,
}
use http_web_framework.Wire.{print_version, read_version, print_headers, read_body, read_headers}
use http_web_framework.Request.Uri.{parse_uri}
use http_web_framework.Request.Query.{parse_query_string}
use http_web_framework.Request.Cookies.{parse_cookies}
use http_web_framework.Request.{Request, add_header, set_uri, set_version}
use http_web_framework.Wire.Headers.{IsLine, add_all, length-read_lines, read_headers-print_headers}
use http_web_framework.Wire.FirstLine.{
  IsKnown, IsWord, bodiless, known_1_0, known_1_1, last_line, read_word_uri, version_line,
  word_line,
}

read_word_method :
    (m : HttpMethod) (rest : Bytes)
    → read_word (to_string (method_code m) ++ b' ' ∷ rest)
      ≡ (to_string (method_code m), b' ' ∷ rest)
unfolding read_word break_word trim_front is_space to_string method_code digits
read_word_method HttpMethod.get rest = refl
read_word_method HttpMethod.post rest = refl
read_word_method HttpMethod.put rest = refl
read_word_method HttpMethod.delete rest = refl
read_word_method HttpMethod.patch rest = refl
read_word_method HttpMethod.head rest = refl
read_word_method HttpMethod.options rest = refl
read_word_method HttpMethod.trace rest = refl
read_word_method HttpMethod.connect rest = refl

-- The method is written as its number, which is no method's name.
read_method_number : (m : HttpMethod) (r : Request) → read_method (to_string (method_code m)) r ≡ r
unfolding read_method same_text to_string method_code digits
read_method_number HttpMethod.get r = refl
read_method_number HttpMethod.post r = refl
read_method_number HttpMethod.put r = refl
read_method_number HttpMethod.delete r = refl
read_method_number HttpMethod.patch r = refl
read_method_number HttpMethod.head r = refl
read_method_number HttpMethod.options r = refl
read_method_number HttpMethod.trace r = refl
read_method_number HttpMethod.connect r = refl

read_known :
    (v : HttpVersion)
    → IsKnown v
    → read_version (read_word (codes " HTTP/" ++ print_version v)).0 ≡ some v
unfolding read_version read_word break_word trim_front is_space print_version same_text
read_known http_1_0 known_1_0 = refl
read_known http_1_1 known_1_1 = refl
read_known http_2_0 unknown = elim unknown [ ]
read_known http_3_0 unknown = elim unknown [ ]

-- The address and the version come back, the method does not.
pub read_request_line-request_line :
    (r fresh : Request)
    → IsWord r.uri
    → IsKnown r.version
    → read_request_line (request_line r) fresh ≡ record fresh { uri = r.uri; version = r.version }
unfolding request_line read_request_line set_uri set_version set_known_version
read_request_line-request_line r fresh word known =
    let behind_uri = codes " HTTP/" ++ print_version r.version in
    rw
      (
        read_request_line,
        read_word_method r.method (r.uri ++ behind_uri),
        read_word_uri r.uri (codes "HTTP/" ++ print_version r.version) word,
        read_method_number r.method fresh,
        read_known r.version known,
      )
      refl

method_line : (m : HttpMethod) → Lacks b'\n' (to_string (method_code m))
unfolding to_string method_code digits
method_line HttpMethod.get = (omega arith, tt)
method_line HttpMethod.post = (omega arith, tt)
method_line HttpMethod.put = (omega arith, tt)
method_line HttpMethod.delete = (omega arith, tt)
method_line HttpMethod.patch = (omega arith, tt)
method_line HttpMethod.head = (omega arith, tt)
method_line HttpMethod.options = (omega arith, tt)
method_line HttpMethod.trace = (omega arith, tt)
method_line HttpMethod.connect = (omega arith, tt)

pub request_line-Lacks :
    (r : Request) → IsWord r.uri → IsKnown r.version → Lacks b'\n' (request_line r)
unfolding request_line
request_line-Lacks r word known =
    All-append _ (to_string (method_code r.method)) _ (method_line r.method) (
      omega arith,
      All-append _ r.uri _ (word_line r.uri word.no_space) (version_line r.version known),
    )

unfoldable pub finish : Request → Request
finish r = parse_cookies (parse_query_string (parse_uri r))

parse_lines_bodiless :
    (fresh r : Request) (first : Bytes) (lines : List Bytes) (header_end : ℕ)
    → read_headers add_header 1 lines (read_request_line first fresh) ≡ (r, header_end)
    → read_body header_end (first ∷ lines) ≡ none
    → parse_lines fresh (first ∷ lines) ≡ finish r
unfolding parse_lines set_read_body finish
parse_lines_bodiless fresh r first lines header_end read no_body =
    ap (λ p. finish (set_read_body (read_body p.1 (first ∷ lines)) p.0)) read
    ∙ ap (λ o. finish (set_read_body o r)) no_body

-- A request without a body is read back but for its method: the address, the version and the headers
-- that to_string wrote are those of the request that from_string makes, which has the method of a new
-- request; if the address is a word, the version is 1.0 or 1.1, and each header fits in a line.
pub parse_request-print_request :
    (r fresh : Request)
    → IsWord r.uri
    → IsKnown r.version
    → All IsLine r.headers
    → parse_request fresh (print_request (record r { body = [] }))
      ≡ parse_cookies (
          parse_query_string (
            parse_uri
              (add_all add_header r.headers (record fresh { uri = r.uri; version = r.version }))))
unfolding parse_request print_request request_line finish
parse_request-print_request r fresh word known lines =
    let tail = print_headers r.headers ++ b'\r' ∷ b'\n' ∷ [] in
    ap (parse_lines fresh) (read_lines_line (request_line r) tail (request_line-Lacks r word known))
    ∙ parse_lines_bodiless fresh
        (add_all add_header r.headers (record fresh { uri = r.uri; version = r.version }))
        (request_line r) (read_lines tail) (1 + length r.headers)
        (ap (read_headers add_header 1 (read_lines tail))
            (read_request_line-request_line r fresh word known)
          ∙ read_headers-print_headers add_header r.headers 1
              (record fresh { uri = r.uri; version = r.version }) [] lines)
        (bodiless (request_line r) (read_lines tail) (length r.headers) (
          length-read_lines r.headers (b'\r' ∷ b'\n' ∷ []) lines
          ∙ ap (λ n. length r.headers + n) last_line))
