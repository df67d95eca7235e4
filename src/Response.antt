-- ===== src/Response.antt =====
-- include/http/response.hpp and src/http/response.cpp: the state of a response, and the operations
-- on its headers, cookies and attributes. The children model the headers with a meaning (Headers),
-- the body (Body), files (Files), ready responses (Factories) and the text form (Wire).
pub mod Headers
pub mod Body
pub mod Files
pub mod Factories
pub mod Wire
pub mod Lookup
pub mod Length
pub mod RoundTrip
pub mod Ranges
pub mod Pages
pub mod Chunks
use mathlib.Core.Option
use http_web_framework.Prelude.{
  Bool, List, Option, [], false, if◌then◌else◌, leb, ltb, map, none, not, some, true, ℕ, ◌&&◌, ◌++◌,
  ◌==◌, ◌||◌, ◌∷◌,
}
use http_web_framework.Text.{Bytes, codes, empty, tolower, toupper}
use http_web_framework.Types.{
  Attribute, AttributeType, CompressionType, HttpCookie, HttpHeader, HttpVersion, holds_alternative,
  http_1_1, new_cookie, no_compression, ℤ,
}
use http_web_framework.Fields.{
  HashMap, any_of, find_if, insert, lookup, named, remove_if, update_or_push,
}

pub record Response : Type 0 where
  pub status_code : ℕ
  pub status_message : Bytes
  pub version : HttpVersion
  pub headers : List HttpHeader
  pub cookies : List HttpCookie
  pub body : Bytes
  pub compression_type : CompressionType
  pub chunked : Bool
  pub headers_sent : Bool
  pub timestamp : ℕ
  pub attributes : HashMap Attribute

-- `Response()` at time `now`.
unfoldable pub new_response : ℕ → Response
new_response now = record {
  status_code = 200;
  status_message = codes "OK";
  version = http_1_1;
  headers = [];
  cookies = [];
  body = [];
  compression_type = no_compression;
  chunked = false;
  headers_sent = false;
  timestamp = now;
  attributes = [];
}

-- The argument is a 16-bit number.
unfoldable pub set_status_code : ℕ → Response → Response
set_status_code code' r = record r { status_code = code' }

unfoldable pub set_status_message : Bytes → Response → Response
set_status_message m r = record r { status_message = m }

unfoldable pub set_version : HttpVersion → Response → Response
set_version v r = record r { version = v }

-- The loop of `normalize_header_name`; the flag is `capitalize_next`.
unfoldable pub capitalize : Bool → Bytes → Bytes
capitalize next [] = []
capitalize next (c ∷ s) =
    let rest = capitalize (c == b'-') s in
    if c == b'-' then c ∷ rest else if next then toupper c ∷ rest else tolower c ∷ rest

-- Header names are kept with a capital at the start of each part.
unfoldable pub normalize_header_name : Bytes → Bytes
normalize_header_name name = capitalize true name

unfoldable pub add_header : Bytes → Bytes → Response → Response
add_header n v r = record r {
  headers = r.headers ++ record { name = normalize_header_name n; value = v } ∷ [];
}

unfoldable pub set_header : Bytes → Bytes → Response → Response
set_header n v r =
    let normalized = normalize_header_name n in
    record r {
      headers =
          update_or_push (named (λ (h : HttpHeader). h.name) normalized)
            (λ h. record h { value = v }) (record { name = normalized; value = v }) r.headers;
    }

unfoldable pub remove_header : Bytes → Response → Response
remove_header n r = record r {
  headers = remove_if (named (λ (h : HttpHeader). h.name) (normalize_header_name n)) r.headers;
}

unfoldable pub has_header : Bytes → Response → Bool
has_header n r = any_of (named (λ (h : HttpHeader). h.name) (normalize_header_name n)) r.headers

unfoldable pub get_header : Bytes → Response → Option Bytes
get_header n r =
    Option.map (λ (h : HttpHeader). h.value)
      (find_if (named (λ (h : HttpHeader). h.name) (normalize_header_name n)) r.headers)

unfoldable pub add_cookie : HttpCookie → Response → Response
add_cookie c r = record r { cookies = r.cookies ++ c ∷ [] }

unfoldable pub set_cookie : Bytes → Bytes → Response → Response
set_cookie n v r = record r {
  cookies =
      update_or_push (named (λ (c : HttpCookie). c.name) n) (λ c. record c { value = v })
        (new_cookie n v) r.cookies;
}

-- `if (it != cookies_.end()) *it = cookie; else cookies_.push_back(cookie);`
unfoldable pub put_cookie : HttpCookie → Response → Response
put_cookie cookie r = record r {
  cookies =
      update_or_push (named (λ (c : HttpCookie). c.name) cookie.name) (λ _. cookie) cookie
        r.cookies;
}

-- The overload of `set_cookie` with a maximal age, in milliseconds.
unfoldable pub set_cookie_for : Bytes → Bytes → ℤ → Response → Response
set_cookie_for n v max_age r =
    let cookie = new_cookie n v in put_cookie (record cookie { max_age = some max_age }) r

unfoldable pub set_secure_cookie : Bytes → Bytes → ℤ → Response → Response
set_secure_cookie n v max_age r =
    let cookie = new_cookie n v in
    put_cookie (record cookie { max_age = some max_age; secure = true; http_only = true }) r

unfoldable pub remove_cookie : Bytes → Response → Response
remove_cookie n r = record r {
  cookies = remove_if (named (λ (c : HttpCookie). c.name) n) r.cookies;
}

unfoldable pub clear_cookies : Response → Response
clear_cookies r = record r { cookies = [] }

unfoldable pub set_attribute : Bytes → Attribute → Response → Response
set_attribute n a r = record r { attributes = insert n a r.attributes }

-- The attribute, if it is there and holds the type that is asked for.
unfoldable pub get_attribute : AttributeType → Bytes → Response → Option Attribute
get_attribute t n r = elim (lookup n r.attributes) [
  | none ↦ none
  | some a ↦ if holds_alternative t a then some a else none
]

-- `reset()` at time `now`.
unfoldable pub reset : ℕ → Response → Response
reset now r = record r {
  status_code = 200;
  status_message = codes "OK";
  version = http_1_1;
  headers = [];
  cookies = [];
  body = [];
  compression_type = no_compression;
  chunked = false;
  headers_sent = false;
  timestamp = now;
  attributes = [];
}

unfoldable pub is_valid : Response → Bool
is_valid r = leb 100 r.status_code && ltb r.status_code 600

unfoldable pub is_complete : Response → Bool
is_complete r = not (empty r.body) || (r.status_code == 204) || (r.status_code == 304)

unfoldable pub body_as_string : Response → Bytes
body_as_string r = r.body
