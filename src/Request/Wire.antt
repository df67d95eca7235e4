-- ===== src/Request/Wire.antt =====
-- The text form of a request: to_string and from_string of src/http/request.cpp.
use http_web_framework.Prelude.{[], List, Option, if◌then◌else◌, none, some, ℕ, ◌∷◌}
use http_web_framework.Text.{
  Bytes, codes, empty, same_text, read_lines, read_word, size, stream, to_string,
}
use http_web_framework.Types.{Endpoint, HttpMethod, HttpVersion, method_code}
use http_web_framework.Wire.{
  crlf, print_headers, print_version, read_body, read_headers, read_version,
}
use http_web_framework.Request.{
  Request, add_header, body_as_string, new_request, set_body, set_method, set_uri, set_version,
}
use http_web_framework.Request.Uri.{parse_uri}
use http_web_framework.Request.Query.{parse_query_string}
use http_web_framework.Request.Cookies.{parse_cookies}

-- `oss << static_cast<int>(method_) << " " << uri_ << " HTTP/"`, the version and the line's end.
unfoldable pub request_line : Request → Bytes
request_line r = stream (
    to_string (method_code r.method)
    ∷ codes " "
    ∷ r.uri
    ∷ codes " HTTP/"
    ∷ print_version r.version
    ∷ [])

unfoldable pub print_request : Request → Bytes
print_request r =
    let length_line =
      if empty r.body
      then []
      else stream (codes "Content-Length: " ∷ to_string (size r.body) ∷ crlf ∷ []) in
    stream (
      request_line r
      ∷ crlf
      ∷ print_headers r.headers
      ∷ length_line
      ∷ crlf
      ∷ (if empty r.body then [] else body_as_string r)
      ∷ [])

-- The chain of comparisons; TRACE, CONNECT and any other word leave the method as it is.
unfoldable pub read_method : Bytes → Request → Request
read_method s r =
    if same_text s (codes "GET")
    then set_method HttpMethod.get r
    else if same_text s (codes "POST")
    then set_method HttpMethod.post r
    else if same_text s (codes "PUT")
    then set_method HttpMethod.put r
    else if same_text s (codes "DELETE")
    then set_method HttpMethod.delete r
    else if same_text s (codes "PATCH")
    then set_method HttpMethod.patch r
    else if same_text s (codes "HEAD")
    then set_method HttpMethod.head r
    else if same_text s (codes "OPTIONS")
    then set_method HttpMethod.options r
    else r

unfoldable pub set_known_version : Option HttpVersion → Request → Request
set_known_version none r = r
set_known_version (some v) r = set_version v r

-- The method, the address and the version of the first line.
unfoldable pub read_request_line : Bytes → Request → Request
read_request_line line r =
    let (method_str, s) = read_word line in
    let (uri, t) = read_word s in
    let (version_str, u) = read_word t in
    set_known_version (read_version version_str) (set_uri uri (read_method method_str r))

unfoldable pub set_read_body : Option Bytes → Request → Request
set_read_body none r = r
set_read_body (some b) r = set_body b r

-- `from_string` into the request that its first statement makes, by the lines of the text.
unfoldable pub parse_lines : Request → List Bytes → Request
parse_lines fresh [] = fresh
parse_lines fresh (first ∷ lines) =
    let (r, header_end) = read_headers add_header 1 lines (read_request_line first fresh) in
    parse_cookies
      (parse_query_string (parse_uri (set_read_body (read_body header_end (first ∷ lines)) r)))

unfoldable pub parse_request : Request → Bytes → Request
parse_request fresh text = parse_lines fresh (read_lines text)

unfoldable pub from_string : Endpoint → ℕ → Bytes → Request
from_string endpoint now text = parse_request (new_request endpoint now) text
