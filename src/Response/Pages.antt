-- ===== src/Response/Pages.antt =====
-- The pages that a response writes by itself: errors and redirects, and the ready responses made of
-- them.
use http_web_framework.Prelude.{[], false, if◌then◌else◌, refl, some, ℕ, ◌∙◌, ◌∷◌, ◌≡◌, ◌≢◌}
use http_web_framework.Text.{
  Bytes, codes, empty, same_text, same_text_refl, size, to_string, tolower, toupper,
}
use http_web_framework.Response.{
  Response, capitalize, get_header, new_response, normalize_header_name, set_header,
  set_status_code, set_status_message,
}
use http_web_framework.Response.Headers.{
  set_content_length, set_content_type, set_location, update_content_length,
}
use http_web_framework.Response.Body.{
  error_html, get_status_message, redirect, redirect_html, send_error, set_body, set_html_body,
}
use http_web_framework.Response.Factories.{
  bad_request, forbidden, internal_server_error, method_not_allowed, not_found, service_unavailable,
  unauthorized,
}
use http_web_framework.Response.Lookup.{set_header_lem}
use http_web_framework.Response.Length.{content_length, set_body_length}

abbrev pub content_type : Bytes
content_type = codes "Content-Type"

type_ne_length :
    same_text (normalize_header_name content_type) (normalize_header_name content_length) ≡ false
unfolding same_text normalize_header_name capitalize toupper tolower
type_ne_length = refl

abbrev pub location : Bytes
location = codes "Location"

length_ne_location :
    same_text (normalize_header_name content_length) (normalize_header_name location) ≡ false
unfolding same_text normalize_header_name capitalize toupper tolower
length_ne_location = refl

type_ne_location :
    same_text (normalize_header_name content_type) (normalize_header_name location) ≡ false
unfolding same_text normalize_header_name capitalize toupper tolower
type_ne_location = refl

-- A response whose body is the page, with the headers that go with it.
pub record IsPage (page : Bytes) (r : Response) : Type 0 where
  pub body : r.body ≡ page
  pub unchunked : r.chunked ≡ false
  pub length : get_header content_length r ≡ some (to_string (size page))
  pub media : get_header content_type r ≡ some (codes "text/html; charset=utf-8")

set_content_type-fields :
    (v : Bytes) (r : Response)
    → ((set_content_type v r).body ≡ r.body) × ((set_content_type v r).chunked ≡ r.chunked)
unfolding set_content_type set_header
set_content_type-fields v r = (refl, refl)

set_html_body-IsPage : (b : Bytes) (r : Response) → b ≢ [] → IsPage b (set_html_body b r)
unfolding set_html_body set_content_type
set_html_body-IsPage b r h =
    let (length', body', off) = set_body_length content_length b r h in
    let (same_body, same_chunked) =
      set_content_type-fields (codes "text/html; charset=utf-8") (set_body b r) in
    record {
      body = same_body ∙ body';
      unchunked = same_chunked ∙ off;
      length =
          set_header_lem content_length content_type _ (set_body b r)
          ∙ rw type_ne_length
              (length' ∙ rw (same_text_refl (normalize_header_name content_length)));
      media =
          set_header_lem content_type content_type _ (set_body b r)
          ∙ rw (same_text_refl (normalize_header_name content_type));
    }

-- The status of a response does not change with its body.
set_html_body-status :
    (b : Bytes) (r : Response)
    → ((set_html_body b r).status_code ≡ r.status_code)
      × ((set_html_body b r).status_message ≡ r.status_message)
unfolding set_html_body set_content_type set_body update_content_length set_content_length
    set_header
set_html_body-status [] r = (refl, refl)
set_html_body-status (c ∷ s) r = (refl, refl)

-- The message of an error, or the standard one of its code.
abbrev pub error_text : ℕ → Bytes → Bytes
error_text c message = if empty message then get_status_message c else message

pub record IsErrorPage (c : ℕ) (message : Bytes) (r : Response) : Type 0 where
  pub status : r.status_code ≡ c
  pub reason : r.status_message ≡ error_text c message
  pub page : IsPage (error_html c (error_text c message)) r

error_html-ne-nil : (c : ℕ) (m : Bytes) → error_html c m ≢ []
unfolding error_html
error_html-ne-nil c m = cc

-- `send_error` sets the code, the message, or for an empty message the standard one of the code,
-- and a page that names both, with its length and type.
pub send_error-IsErrorPage :
    (c : ℕ) (message : Bytes) (r : Response) → IsErrorPage c message (send_error c message r)
unfolding send_error set_status_code set_status_message
send_error-IsErrorPage c message r =
    let text = error_text c message in
    let r' = record r { status_code = c; status_message = text } in
    let (code', reason') = set_html_body-status (error_html c text) r' in
    record {
      status = code';
      reason = reason';
      page = set_html_body-IsPage (error_html c text) r' (error_html-ne-nil c text);
    }

-- Each ready error response has the code that it is named for, and is complete.
pub factories-IsErrorPage :
    (now : ℕ) (m : Bytes)
    → IsErrorPage 400 m (bad_request now m)
      × IsErrorPage 401 m (unauthorized now m)
      × IsErrorPage 403 m (forbidden now m)
      × IsErrorPage 404 m (not_found now m)
      × IsErrorPage 405 m (method_not_allowed now m)
      × IsErrorPage 500 m (internal_server_error now m)
      × IsErrorPage 503 m (service_unavailable now m)
unfolding bad_request unauthorized forbidden not_found method_not_allowed internal_server_error
    service_unavailable
factories-IsErrorPage now m = (
  send_error-IsErrorPage 400 m (new_response now),
  send_error-IsErrorPage 401 m (new_response now),
  send_error-IsErrorPage 403 m (new_response now),
  send_error-IsErrorPage 404 m (new_response now),
  send_error-IsErrorPage 405 m (new_response now),
  send_error-IsErrorPage 500 m (new_response now),
  send_error-IsErrorPage 503 m (new_response now),
)

redirect_html-ne-nil : (u : Bytes) → redirect_html u ≢ []
unfolding redirect_html
redirect_html-ne-nil u = cc

-- The page leaves a header alone that is neither of its two.
get_location-set_html_body :
    (b : Bytes) (r : Response)
    → b ≢ []
    → get_header location (set_html_body b r) ≡ get_header location r
unfolding set_html_body set_content_type
get_location-set_html_body b r h =
    set_header_lem location content_type _ (set_body b r)
    ∙ rw type_ne_location ((set_body_length location b r h).0 ∙ rw length_ne_location)

set_header-status : (n v : Bytes) (r : Response) → (set_header n v r).status_code ≡ r.status_code
unfolding set_header
set_header-status n v r = refl

-- A redirect sets the code, the Location header and a page with its length and type.
pub redirect-IsPage :
    (url : Bytes) (c : ℕ) (r : Response)
    → ((redirect url c r).status_code ≡ c)
      × (get_header location (redirect url c r) ≡ some url)
      × IsPage (redirect_html url) (redirect url c r)
unfolding redirect set_status_code set_location
redirect-IsPage url c r =
    let started = record r { status_code = c } in
    let r' = set_header location url started in
    let page = redirect_html url in
    let filled = redirect_html-ne-nil url in
    (
      (set_html_body-status page r').0 ∙ set_header-status location url started,
      get_location-set_html_body page r' filled
          ∙ set_header_lem location location url started
          ∙ rw (same_text_refl (normalize_header_name location)),
      set_html_body-IsPage page r' filled,
    )
