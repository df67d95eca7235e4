-- ===== src/Request/Lookup.antt =====
-- What is found by name in a request after a change of its headers or its cookies.
use http_web_framework.Prelude.{if◌then◌else◌, is_some, none, refl, some, ◌≡◌}
use http_web_framework.Text.{Bytes, same_text}
use http_web_framework.Types.{HttpCookie, HttpHeader, new_cookie}
use http_web_framework.Fields.{is_some-value, value-push, value-remove, value-update}
use http_web_framework.Request.{
  Request, add_header, get_cookie, get_header, has_header, normalize_header_name, remove_cookie,
  remove_header, set_cookie, set_header,
}

-- After `set_header` the name, in any case, has the new value, and every other name what it had.
pub get_header-set_header :
    (m n v : Bytes) (r : Request)
    → get_header m (set_header n v r) ≡ (
        if same_text (normalize_header_name n) (normalize_header_name m)
        then some v
        else get_header m r)
unfolding get_header set_header
get_header-set_header m n v r =
    value-update (λ (h : HttpHeader). h.name) (λ h. h.value) (normalize_header_name n)
      (normalize_header_name m) v _ _ r.headers refl (λ a e. e) refl (λ a. refl)

-- After `remove_header` no header of the name is left, in any case, and every other name has what
-- it had.
pub get_header-remove_header :
    (m n : Bytes) (r : Request)
    → get_header m (remove_header n r) ≡ (
        if same_text (normalize_header_name n) (normalize_header_name m)
        then none
        else get_header m r)
unfolding get_header remove_header
get_header-remove_header m n r =
    value-remove (λ (h : HttpHeader). h.name) (λ h. h.value) (normalize_header_name n)
      (normalize_header_name m) r.headers

-- `add_header` gives a name its value only if it has none yet: the first header of a name wins.
pub get_header-add_header :
    (m n v : Bytes) (r : Request)
    → get_header m (add_header n v r) ≡ (elim (get_header m r) [
      | some w ↦ some w
      | none ↦
          if same_text (normalize_header_name n) (normalize_header_name m) then some v else none
    ])
unfolding get_header add_header
get_header-add_header m n v r =
    value-push (λ (h : HttpHeader). h.name) (λ h. h.value) (normalize_header_name m) r.headers _

pub has_header-get_header : (n : Bytes) (r : Request) → has_header n r ≡ is_some (get_header n r)
unfolding has_header get_header
has_header-get_header n r =
    is_some-value (λ (h : HttpHeader). h.name) (λ h. h.value) (normalize_header_name n) r.headers

-- Cookies are found by their exact names: after `set_cookie` the name has the new value, and every
-- other name what it had.
pub get_cookie-set_cookie :
    (m n v : Bytes) (r : Request)
    → get_cookie m (set_cookie n v r) ≡ (if same_text n m then some v else get_cookie m r)
unfolding get_cookie set_cookie new_cookie
get_cookie-set_cookie m n v r =
    value-update (λ (c : HttpCookie). c.name) (λ c. c.value) n m v _ _ r.cookies refl (λ a e. e)
      refl (λ a. refl)

pub get_cookie-remove_cookie :
    (m n : Bytes) (r : Request)
    → get_cookie m (remove_cookie n r) ≡ (if same_text n m then none else get_cookie m r)
unfolding get_cookie remove_cookie
get_cookie-remove_cookie m n r =
    value-remove (λ (c : HttpCookie). c.name) (λ c. c.value) n m r.cookies
