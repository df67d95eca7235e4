-- ===== src/Request.antt =====
-- include/http/request.hpp and src/http/request.cpp: the state of a request, and the operations on
-- its headers, cookies, parameters and attributes. The children model the rest: the address (Uri),
-- form encoding (Query), the Cookie header (Cookies), what the headers say of the message
-- (Message) and the text form (Wire).
pub mod Uri
pub mod Message
pub mod Query
pub mod Cookies
pub mod Wire
pub mod UriParts
pub mod UriCaches
pub mod Lookup
pub mod Pieces
pub mod Encoding
pub mod Length
pub mod RoundTrip
pub mod BodyTrip
use http_web_framework.Prelude.{
  Bool, List, Option, [], if◌then◌else◌, is_some, map, none, not, some, ℕ, ◌++◌, ◌∷◌,
}
use http_web_framework.Text.{Bytes, empty, tolower}
use http_web_framework.Types.{
  Attribute, AttributeType, Endpoint, HttpCookie, HttpHeader, HttpMethod, HttpVersion,
  holds_alternative, http_1_1, new_cookie,
}
use http_web_framework.Fields.{
  HashMap, any_of, erase, find_if, insert, lookup, named, remove_if, update_or_push,
}
use mathlib.Core.Option

pub record Request : Type 0 where
  pub method : HttpMethod
  pub uri : Bytes
  pub version : HttpVersion
  pub headers : List HttpHeader
  pub cookies : List HttpCookie
  pub body : Bytes
  pub remote_endpoint : Endpoint
  pub query_params : HashMap Bytes
  pub path_params : HashMap Bytes
  pub attributes : HashMap Attribute
  pub timestamp : ℕ
  pub request_id : ℕ
  pub cached_path : Option Bytes
  pub cached_query_string : Option Bytes
  pub cached_fragment : Option Bytes

-- `Request()` at time `now`; the endpoint is what its own default constructor gives.
unfoldable pub new_request : Endpoint → ℕ → Request
new_request endpoint now = record {
  method = HttpMethod.get;
  uri = [];
  version = http_1_1;
  headers = [];
  cookies = [];
  body = [];
  remote_endpoint = endpoint;
  query_params = [];
  path_params = [];
  attributes = [];
  timestamp = now;
  request_id = 0;
  cached_path = none;
  cached_query_string = none;
  cached_fragment = none;
}

unfoldable pub set_method : HttpMethod → Request → Request
set_method m r = record r { method = m }

unfoldable pub set_uri : Bytes → Request → Request
set_uri u r = record r { uri = u }

unfoldable pub set_version : HttpVersion → Request → Request
set_version v r = record r { version = v }

unfoldable pub set_body : Bytes → Request → Request
set_body b r = record r { body = b }

-- Header names are kept in lower case.
unfoldable pub normalize_header_name : Bytes → Bytes
normalize_header_name name = map tolower name

unfoldable pub add_header : Bytes → Bytes → Request → Request
add_header n v r = record r {
  headers = r.headers ++ record { name = normalize_header_name n; value = v } ∷ [];
}

unfoldable pub set_header : Bytes → Bytes → Request → Request
set_header n v r =
    let normalized = normalize_header_name n in
    record r {
      headers =
          update_or_push (named (λ (h : HttpHeader). h.name) normalized)
            (λ h. record h { value = v }) (record { name = normalized; value = v }) r.headers;
    }

unfoldable pub remove_header : Bytes → Request → Request
remove_header n r = record r {
  headers = remove_if (named (λ (h : HttpHeader). h.name) (normalize_header_name n)) r.headers;
}

unfoldable pub has_header : Bytes → Request → Bool
has_header n r = any_of (named (λ (h : HttpHeader). h.name) (normalize_header_name n)) r.headers

unfoldable pub get_header : Bytes → Request → Option Bytes
get_header n r =
    Option.map (λ (h : HttpHeader). h.value)
      (find_if (named (λ (h : HttpHeader). h.name) (normalize_header_name n)) r.headers)

unfoldable pub add_cookie : HttpCookie → Request → Request
add_cookie c r = record r { cookies = r.cookies ++ c ∷ [] }

unfoldable pub set_cookie : Bytes → Bytes → Request → Request
set_cookie n v r = record r {
  cookies =
      update_or_push (named (λ (c : HttpCookie). c.name) n) (λ c. record c { value = v })
        (new_cookie n v) r.cookies;
}

unfoldable pub remove_cookie : Bytes → Request → Request
remove_cookie n r = record r {
  cookies = remove_if (named (λ (c : HttpCookie). c.name) n) r.cookies;
}

unfoldable pub has_cookie : Bytes → Request → Bool
has_cookie n r = any_of (named (λ (c : HttpCookie). c.name) n) r.cookies

unfoldable pub get_cookie : Bytes → Request → Option Bytes
get_cookie n r =
    Option.map (λ (c : HttpCookie). c.value)
      (find_if (named (λ (c : HttpCookie). c.name) n) r.cookies)

unfoldable pub set_query_param : Bytes → Bytes → Request → Request
set_query_param n v r = record r { query_params = insert n v r.query_params }

unfoldable pub remove_query_param : Bytes → Request → Request
remove_query_param n r = record r { query_params = erase n r.query_params }

unfoldable pub has_query_param : Bytes → Request → Bool
has_query_param n r = is_some (lookup n r.query_params)

unfoldable pub get_query_param : Bytes → Request → Option Bytes
get_query_param n r = lookup n r.query_params

unfoldable pub set_path_param : Bytes → Bytes → Request → Request
set_path_param n v r = record r { path_params = insert n v r.path_params }

unfoldable pub has_path_param : Bytes → Request → Bool
has_path_param n r = is_some (lookup n r.path_params)

unfoldable pub get_path_param : Bytes → Request → Option Bytes
get_path_param n r = lookup n r.path_params

unfoldable pub set_attribute : Bytes → Attribute → Request → Request
set_attribute n a r = record r { attributes = insert n a r.attributes }

-- The attribute, if it is there and holds the type that is asked for.
unfoldable pub get_attribute : AttributeType → Bytes → Request → Option Attribute
get_attribute t n r = elim (lookup n r.attributes) [
  | none ↦ none
  | some a ↦ if holds_alternative t a then some a else none
]

unfoldable pub has_attribute : Bytes → Request → Bool
has_attribute n r = is_some (lookup n r.attributes)

unfoldable pub remove_attribute : Bytes → Request → Request
remove_attribute n r = record r { attributes = erase n r.attributes }

unfoldable pub body_as_string : Request → Bytes
body_as_string r = r.body

-- `reset()` at time `now`: all but the remote endpoint is as in a new request.
unfoldable pub reset : ℕ → Request → Request
reset now r = record r {
  method = HttpMethod.get;
  uri = [];
  version = http_1_1;
  headers = [];
  cookies = [];
  body = [];
  query_params = [];
  path_params = [];
  attributes = [];
  timestamp = now;
  request_id = 0;
  cached_path = none;
  cached_query_string = none;
  cached_fragment = none;
}

unfoldable pub is_valid : Request → Bool
is_valid r = not (empty r.uri)
