-- ===== src/Response/Wire.antt =====
-- The text form of a response: to_string, to_buffer and from_string of src/http/response.cpp.
use http_web_framework.Prelude.{
  Bool, List, Option, [], if◌then◌else◌, none, some, ℕ, ◌++◌, ◌==◌, ◌∷◌,
}
use http_web_framework.Text.{
  Bytes, codes, empty, read_lines, read_word, stoi_mod, stream, to_string,
}
use http_web_framework.Types.{HttpCookie, HttpVersion, to_string_ℤ, ℤ}
use http_web_framework.Wire.{
  crlf, print_headers, print_version, read_body, read_headers, read_version,
}
use http_web_framework.Response.{
  Response, add_header, body_as_string, new_response, set_status_code, set_status_message,
  set_version,
}
use http_web_framework.Response.Body.{set_body}

-- `if (field) oss << label << *field;`
abbrev print_optional : Bytes → Option Bytes → Bytes
print_optional label none = []
print_optional label (some v) = label ++ v

abbrev print_flag : Bytes → Bool → Bytes
print_flag label set = if set then label else []

-- The count of `max_age` is printed, which is in milliseconds.
abbrev print_max_age : Option ℤ → Bytes
print_max_age none = []
print_max_age (some n) = codes "; Max-Age=" ++ to_string_ℤ n

unfoldable pub print_cookie : HttpCookie → Bytes
print_cookie c = stream (
    codes "Set-Cookie: "
    ∷ c.name
    ∷ codes "="
    ∷ c.value
    ∷ print_optional (codes "; Domain=") c.domain
    ∷ print_optional (codes "; Path=") c.path
    ∷ print_max_age c.max_age
    ∷ print_flag (codes "; Secure") c.secure
    ∷ print_flag (codes "; HttpOnly") c.http_only
    ∷ print_optional (codes "; SameSite=") c.same_site
    ∷ [])

unfoldable pub print_cookies : List HttpCookie → Bytes
print_cookies [] = []
print_cookies (c ∷ cs) = stream (print_cookie c ∷ crlf ∷ print_cookies cs ∷ [])

unfoldable pub status_line : Response → Bytes
status_line r = stream (
    codes "HTTP/"
    ∷ print_version r.version
    ∷ codes " "
    ∷ to_string r.status_code
    ∷ codes " "
    ∷ r.status_message
    ∷ [])

unfoldable pub print_response : Response → Bytes
print_response r = stream (
    status_line r
    ∷ crlf
    ∷ print_headers r.headers
    ∷ print_cookies r.cookies
    ∷ crlf
    ∷ (if empty r.body then [] else body_as_string r)
    ∷ [])

unfoldable pub to_buffer : Response → Bytes
to_buffer r = print_response r

-- `if (!status_message.empty() && status_message[0] == ' ') status_message.erase(0, 1);`
abbrev drop_space : Bytes → Bytes
drop_space [] = []
drop_space (c ∷ s) = if c == b' ' then s else c ∷ s

unfoldable pub store_version : Option HttpVersion → Response → Response
store_version none r = r
store_version (some v) r = set_version v r

-- What stands behind the number of the status; `none` is the exception of `std::stoi`.
unfoldable pub store_status : Bytes → Bytes → Response → Option ℕ → Option Response
store_status version_str message r none = none
store_status version_str message r (some c) = some (
    store_version (read_version version_str)
      (set_status_message (drop_space message) (set_status_code c r)))

-- The status line into a response.
unfoldable pub read_status_line : Bytes → Response → Option Response
read_status_line line r =
    let (version_str, s) = read_word line in
    let (status_code_str, message) = read_word s in
    store_status version_str message r (stoi_mod 16 10 status_code_str)

unfoldable pub store_body : Option Bytes → Response → Response
store_body none r = r
store_body (some b) r = set_body b r

-- The lines behind the status line.
unfoldable pub read_message : Bytes → List Bytes → Option Response → Option Response
read_message first lines none = none
read_message first lines (some started) =
    let (r, header_end) = read_headers add_header 1 lines started in
    some (store_body (read_body header_end (first ∷ lines)) r)

-- `from_string` into the response that its first statement makes, by the lines of the text.
unfoldable pub parse_lines : Response → List Bytes → Option Response
parse_lines fresh [] = some fresh
parse_lines fresh (first ∷ lines) = read_message first lines (read_status_line first fresh)

unfoldable pub parse_response : Response → Bytes → Option Response
parse_response fresh text = parse_lines fresh (read_lines text)

unfoldable pub from_string : ℕ → Bytes → Option Response
from_string now text = parse_response (new_response now) text
