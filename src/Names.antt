-- ===== src/Names.antt =====
-- The two normal forms of header names: lower case in requests (src/http/request.cpp) and
-- capitals at the start of each part in responses (src/http/response.cpp).
use http_web_framework.Prelude.{
  Bool, [], ap, arith, map, refl, sym, true, ℕ, ◌==◌, ◌↔◌, ◌∙◌, ◌∷◌, ◌≡◌,
}
use http_web_framework.Text.{Bytes, tolower, toupper}
use http_web_framework.Request
use http_web_framework.Response
use http_web_framework.Response.{capitalize}

lower_upper : (c : ℕ) → tolower (toupper c) ≡ tolower c
unfolding tolower toupper
lower_upper c = ground arith

upper_lower : (c : ℕ) → toupper (tolower c) ≡ toupper c
unfolding tolower toupper
upper_lower c = ground arith

lower_lower : (c : ℕ) → tolower (tolower c) ≡ tolower c
unfolding tolower
lower_lower c = ground arith

lower_dash : (c : ℕ) → (tolower c == b'-') ≡ (c == b'-')
unfolding tolower
lower_dash c = ground arith

lower-capitalize : (b : Bool) (s : Bytes) → map tolower (capitalize b s) ≡ map tolower s
unfolding capitalize
lower-capitalize b [] = refl
lower-capitalize b (c ∷ s) =
    ground (arith, lower-capitalize (c == b'-') s, lower_upper c, lower_lower c)

capitalize-lower : (b : Bool) (s : Bytes) → capitalize b (map tolower s) ≡ capitalize b s
unfolding capitalize
capitalize-lower b [] = refl
capitalize-lower b (c ∷ s) =
    rw lower_dash
      (ground (arith, capitalize-lower (c == b'-') s, upper_lower c, lower_lower c, lower_dash c))

-- Two names are one in a response exactly when they are one in a request.
pub normalize_header_name_iff :
    (m n : Bytes)
    → (Response.normalize_header_name m ≡ Response.normalize_header_name n)
      ↔ (Request.normalize_header_name m ≡ Request.normalize_header_name n)
unfolding Response.normalize_header_name Request.normalize_header_name
normalize_header_name_iff m n = (
  λ e. sym (lower-capitalize true m) ∙ ap (map tolower) e ∙ lower-capitalize true n,
  λ e. sym (capitalize-lower true m) ∙ ap (capitalize true) e ∙ capitalize-lower true n,
)
