-- ===== src/Response/Lookup.antt =====
-- What is found by name in a response after a change of its headers and its cookies.
use http_web_framework.Prelude.{
  Bool-cases, Option, ap, if◌then◌else◌, inl, inr, is_some, none, refl, some, ◌∙◌, ◌≡◌,
}
use http_web_framework.Text.{Bytes, same_text, same_text_iff}
use http_web_framework.Types.{HttpCookie, HttpHeader, new_cookie}
use http_web_framework.Fields.{
  find_if, find_if-update_ne, find_if-update_self, is_some-value, named, value-push, value-remove,
  value-update,
}
use http_web_framework.Response.{
  Response, add_header, get_header, has_header, normalize_header_name, put_cookie, remove_header,
  set_cookie, set_header,
}

-- After `set_header` the name, in any case, has the new value, and every other name what it had.
pub set_header_lem :
    (m n v : Bytes) (r : Response)
    → get_header m (set_header n v r) ≡ (
        if same_text (normalize_header_name n) (normalize_header_name m)
        then some v
        else get_header m r)
unfolding get_header set_header
set_header_lem m n v r =
    value-update (λ (h : HttpHeader). h.name) (λ h. h.value) (normalize_header_name n)
      (normalize_header_name m) v _ _ r.headers refl (λ a e. e) refl (λ a. refl)

-- After `remove_header` no header of the name is left, in any case, and every other name has what
-- it had.
pub remove_header_lem :
    (m n : Bytes) (r : Response)
    → get_header m (remove_header n r) ≡ (
        if same_text (normalize_header_name n) (normalize_header_name m)
        then none
        else get_header m r)
unfolding get_header remove_header
remove_header_lem m n r =
    value-remove (λ (h : HttpHeader). h.name) (λ h. h.value) (normalize_header_name n)
      (normalize_header_name m) r.headers

-- `add_header` gives a name its value only if it has none yet: the first header of a name wins.
pub add_header_lem :
    (m n v : Bytes) (r : Response)
    → get_header m (add_header n v r) ≡ (elim (get_header m r) [
      | some w ↦ some w
      | none ↦
          if same_text (normalize_header_name n) (normalize_header_name m) then some v else none
    ])
unfolding get_header add_header
add_header_lem m n v r =
    value-push (λ (h : HttpHeader). h.name) (λ h. h.value) (normalize_header_name m) r.headers _

pub has_header_lem : (n : Bytes) (r : Response) → has_header n r ≡ is_some (get_header n r)
unfolding has_header get_header
has_header_lem n r =
    is_some-value (λ (h : HttpHeader). h.name) (λ h. h.value) (normalize_header_name n) r.headers

-- The cookie of a name.
unfoldable pub find_cookie : Bytes → Response → Option HttpCookie
find_cookie n r = find_if (named (λ (c : HttpCookie). c.name) n) r.cookies

-- The first overload of set_cookie changes the value of a cookie that is there and keeps its
-- attributes.
pub find_cookie-set_cookie :
    (n v : Bytes) (r : Response)
    → find_cookie n (set_cookie n v r)
      ≡ some (elim (find_cookie n r) [ none ↦ new_cookie n v | some c ↦ record c { value = v } ])
unfolding find_cookie set_cookie new_cookie
find_cookie-set_cookie n v r =
    find_if-update_self (λ (c : HttpCookie). c.name) n _ _ r.cookies refl (λ a e. e)

-- After `put_cookie`, to which set_cookie with an age and set_secure_cookie come down, the name has
-- the new cookie with all its attributes, and every other name the cookie that it had.
pub find_cookie-put_cookie :
    (m : Bytes) (c : HttpCookie) (r : Response)
    → find_cookie m (put_cookie c r) ≡ (if same_text c.name m then some c else find_cookie m r)
unfolding find_cookie put_cookie
find_cookie-put_cookie m c r = elim (Bool-cases (same_text c.name m)) [
  | inl same ↦ rw same (
      rw (← (same_text_iff c.name m).0 same) (
        find_if-update_self (λ (d : HttpCookie). d.name) c.name (λ _. c) c r.cookies refl
          (λ a e. refl)
        ∙ ap some (same_cookie (find_cookie c.name r))))
  | inr other ↦ rw other (
      find_if-update_ne (λ (d : HttpCookie). d.name) c.name m (λ _. c) c r.cookies other refl
        (λ a e. refl))
]
  where
    same_cookie : (o : Option HttpCookie) → (elim o [ none ↦ c | some d ↦ c ]) ≡ c
    same_cookie none = refl
    same_cookie (some d) = refl
