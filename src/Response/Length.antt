-- ===== src/Response/Length.antt =====
-- How the headers of a response tell the length of its body: Content-Length and Transfer-Encoding
-- after each operation on the body.
use http_web_framework.Prelude.{[], false, if◌then◌else◌, refl, some, ℕ, ◌∙◌, ◌∷◌, ◌≡◌, ◌≢◌}
use http_web_framework.Text.{
  Bytes, codes, same_text, same_text_refl, size, to_string, tolower, toupper,
}
use http_web_framework.Response.{
  Response, capitalize, get_header, normalize_header_name, set_header,
}
use http_web_framework.Response.Headers.{set_content_length, update_content_length}
use http_web_framework.Response.Body.{set_body, set_body_buffer}
use http_web_framework.Response.Lookup.{set_header_lem}

abbrev pub content_length : Bytes
content_length = codes "Content-Length"

abbrev pub transfer_encoding : Bytes
transfer_encoding = codes "Transfer-Encoding"

-- The two names are told apart.
pub length_ne_encoding :
    same_text (normalize_header_name content_length) (normalize_header_name transfer_encoding)
    ≡ false
unfolding same_text normalize_header_name capitalize toupper tolower
length_ne_encoding = refl

encoding_ne_length :
    same_text (normalize_header_name transfer_encoding) (normalize_header_name content_length)
    ≡ false
unfolding same_text normalize_header_name capitalize toupper tolower
encoding_ne_length = refl

-- Headers do not depend on the body.
get_header_body : (m b : Bytes) (r : Response) → get_header m (set_body_buffer b r) ≡ get_header m r
unfolding get_header set_body_buffer
get_header_body m b r = refl

get_header-set_body_cons :
    (m : Bytes) (c : ℕ) (s : Bytes) (r : Response)
    → get_header m (set_body (c ∷ s) r) ≡ (
        if same_text (normalize_header_name content_length) (normalize_header_name m)
        then some (to_string (size (c ∷ s)))
        else get_header m r)
unfolding set_body update_content_length set_content_length set_body_buffer
get_header-set_body_cons m c s r =
    set_header_lem m content_length (to_string (size (c ∷ s))) (set_body_buffer (c ∷ s) r)
    ∙ rw (get_header_body m (c ∷ s) r)

-- Facts of a response with a new body that do not concern the headers.
set_body-fields :
    (b : Bytes) (r : Response) → ((set_body b r).body ≡ b) × ((set_body b r).chunked ≡ false)
unfolding set_body update_content_length set_content_length set_header
set_body-fields [] r = (refl, refl)
set_body-fields (c ∷ s) r = (refl, refl)

-- `set_body` with a body that is not empty: Content-Length is its size, no other header changes, and
-- the response is no longer chunked.
pub set_body_length :
    (m b : Bytes) (r : Response)
    → b ≢ []
    → (get_header m (set_body b r) ≡ (
        if same_text (normalize_header_name content_length) (normalize_header_name m)
        then some (to_string (size b))
        else get_header m r))
      × ((set_body b r).body ≡ b)
      × ((set_body b r).chunked ≡ false)
set_body_length m [] r h = absurd (h refl)
set_body_length m (c ∷ s) r h =
    let (body, chunked) = set_body-fields (c ∷ s) r in
    (get_header-set_body_cons m c s r, body, chunked)

get_header-set_body_nil : (m : Bytes) (r : Response) → get_header m (set_body [] r) ≡ get_header m r
unfolding set_body update_content_length get_header
get_header-set_body_nil m r = refl

-- `set_body` with an empty body removes the body and leaves every header as it was: the
-- Content-Length of an earlier body stays.
pub set_body_empty_stale :
    (b : Bytes) (r : Response)
    → b ≢ []
    → ((set_body [] (set_body b r)).body ≡ [])
      × (get_header content_length (set_body [] (set_body b r)) ≡ some (to_string (size b)))
set_body_empty_stale [] r h = absurd (h refl)
set_body_empty_stale (c ∷ s) r h = (
  (set_body-fields [] (set_body (c ∷ s) r)).0,
  get_header-set_body_nil content_length (set_body (c ∷ s) r)
      ∙ get_header-set_body_cons content_length c s r
      ∙ rw (same_text_refl (normalize_header_name content_length)),
)
