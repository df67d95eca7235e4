-- ===== src/Demo/Access.antt =====
-- What auth_middleware and cors_middleware of src/main.cpp let through and answer.
use http_web_framework.Prelude.{
  [], ap, arith, false, none, refl, some, sym, true, ℕ, ◌++◌, ◌∙◌, ◌∷◌, ◌≡◌,
}
use http_web_framework.Text.{Bytes, codes, same_text, same_text_refl, starts_with, tolower, toupper}
use http_web_framework.Request.{
  Request, get_header as request_header, set_header as set_request_header,
  normalize_header_name as normalize_request_name, remove_header as remove_request_header,
}
use http_web_framework.Request.Lookup.{get_header-remove_header, get_header-set_header}
use http_web_framework.Response.{
  Response, capitalize, get_header, normalize_header_name, set_header, set_status_code,
}
use http_web_framework.Response.Pages.{IsErrorPage, send_error-IsErrorPage}
use http_web_framework.Types.{HttpMethod}
use http_web_framework.Response.Headers.{set_cors_headers}
use http_web_framework.Response.Lookup.{set_header_lem}
use http_web_framework.Middleware.{Next}
use http_web_framework.Demo.Middlewares.{auth_middleware, cors_middleware}

starts_with_append : (p t : Bytes) → starts_with (p ++ t) p ≡ true
unfolding starts_with
starts_with_append [] t = refl
starts_with_append (x ∷ p) t = ground (arith, starts_with_append p t)

abbrev pub authorization_name : Bytes
authorization_name = codes "Authorization"

auth-value :
    (n v : Bytes) (r : Request)
    → normalize_request_name n ≡ normalize_request_name authorization_name
    → request_header authorization_name (set_request_header n v r) ≡ some v
auth-value n v r h =
    let s : same_text (normalize_request_name n) (normalize_request_name authorization_name)
        ≡ true =
      rw h (same_text_refl (normalize_request_name authorization_name)) in
    rw (get_header-set_header authorization_name n v r, s)

auth-removed :
    (n : Bytes) (r : Request)
    → normalize_request_name n ≡ normalize_request_name authorization_name
    → request_header authorization_name (remove_request_header n r) ≡ none
auth-removed n r h =
    let s : same_text (normalize_request_name n) (normalize_request_name authorization_name)
        ≡ true =
      rw h (same_text_refl (normalize_request_name authorization_name)) in
    rw (get_header-remove_header authorization_name n r, s)

-- Whatever the case in which the header's name is written: a request whose Authorization was set to
-- `Bearer ` and a token is passed on; one from which the header was removed, and one where it was
-- set to a text that does not start with `Bearer `, is answered by the complete error page for 401,
-- which is the same for every other continuation, so they are not passed on.
pub auth_middleware-IsErrorPage :
    (n token other : Bytes) (r : Request) (next other_next : Next) (res : Response)
    → normalize_request_name n ≡ normalize_request_name authorization_name
    → starts_with other (codes "Bearer ") ≡ false
    → (auth_middleware (set_request_header n (codes "Bearer " ++ token) r) next res ≡ next res)
      × IsErrorPage 401
          (codes "Unauthorized")
          (auth_middleware (remove_request_header n r) next res)
      × IsErrorPage 401
          (codes "Unauthorized")
          (auth_middleware (set_request_header n other r) next res)
      × (auth_middleware (remove_request_header n r) next res
          ≡ auth_middleware (remove_request_header n r) other_next res)
      × (auth_middleware (set_request_header n other r) next res
          ≡ auth_middleware (set_request_header n other r) other_next res)
unfolding auth_middleware
auth_middleware-IsErrorPage n token other r next other_next res h bad = (
  rw (
    auth_middleware,
    auth-value n (codes "Bearer " ++ token) r h,
    starts_with_append (codes "Bearer ") token,
  ),
  rw (auth_middleware, auth-removed n r h) (send_error-IsErrorPage 401 (codes "Unauthorized") res),
  rw (auth_middleware, auth-value n other r h, bad)
      (send_error-IsErrorPage 401 (codes "Unauthorized") res),
  rw (auth_middleware, auth-removed n r h) refl,
  rw (auth_middleware, auth-value n other r h, bad) refl,
)

-- A header of the response is not changed by the status code.
get_header_status :
    (m : Bytes) (c : ℕ) (r : Response) → get_header m (set_status_code c r) ≡ get_header m r
unfolding get_header set_status_code
get_header_status m c r = refl

status-set_header : (n v : Bytes) (r : Response) → (set_header n v r).status_code ≡ r.status_code
unfolding set_header
status-set_header n v r = refl

abbrev pub allow_origin : Bytes
allow_origin = codes "Access-Control-Allow-Origin"

cors_options :
    (req : Request) (next : Next) (res : Response)
    → req.method ≡ HttpMethod.options
    → cors_middleware req next res ≡ set_status_code 200 (set_cors_headers (codes "*") res)
unfolding cors_middleware set_cors_headers
cors_options req next res h = rw h

-- The origin is written first, and the two headers after it have other names.
set_cors_headers-origin :
    (o : Bytes) (res : Response) → get_header allow_origin (set_cors_headers o res) ≡ some o
unfolding set_cors_headers same_text normalize_header_name capitalize toupper tolower
set_cors_headers-origin o res =
    set_header_lem allow_origin (codes "Access-Control-Allow-Headers")
      (codes "Content-Type, Authorization") _
    ∙ set_header_lem allow_origin (codes "Access-Control-Allow-Methods")
        (codes "GET, POST, PUT, DELETE, OPTIONS") _
    ∙ set_header_lem allow_origin allow_origin o res

-- A preflight request (OPTIONS) is answered with 200 and an open Access-Control-Allow-Origin
-- without the rest of the chain: the answer is the same for every other continuation.
pub cors_middleware_options :
    (req : Request) (next other : Next) (res : Response)
    → req.method ≡ HttpMethod.options
    → (cors_middleware req next res ≡ cors_middleware req other res)
      × ((cors_middleware req next res).status_code ≡ 200)
      × (get_header allow_origin (cors_middleware req next res) ≡ some (codes "*"))
unfolding set_status_code
cors_middleware_options req next other res h =
    let e = cors_options req next res h in
    let opened = set_cors_headers (codes "*") res in
    (
      e ∙ sym (cors_options req other res h),
      ap (λ (r : Response). r.status_code) e,
      ap (get_header allow_origin) e
          ∙ get_header_status allow_origin 200 opened
          ∙ set_cors_headers-origin (codes "*") res,
    )
