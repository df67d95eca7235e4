-- ===== src/Request/Pieces.antt =====
-- The loops of parse_query_string and parse_cookie_header of src/http/request.cpp go over the pieces
-- of their texts.
use mathlib.Core.List.{foldl}
use http_web_framework.Prelude.{List, Option-cases, [], arith, inl, inr, refl, ◌+◌, ◌∷◌, ◌≡◌}
use http_web_framework.Text.{Bytes, find, pieces, scan_pieces-foldl, size}
use http_web_framework.Fields.{HashMap, IsTable, insert-IsTable}
use http_web_framework.Request.Query.{insert_param, parse_query}
use http_web_framework.Request.Cookies.{parse_cookie_header, push_cookie}

-- The loop over positions ends, and parse_query_string takes the pieces between the `&` one by one,
-- from left to right; what is behind a last `&` is no piece if it is empty.
pub parse_query-pieces : (q : Bytes) → parse_query q ≡ foldl insert_param [] (pieces b'&' q)
unfolding parse_query pieces
parse_query-pieces [] = refl
parse_query-pieces (c ∷ q) =
    scan_pieces-foldl b'&' insert_param (size (c ∷ q) + 1) 0 (c ∷ q) [] (omega arith)

-- The loop over positions ends, and parse_cookie_header takes the pieces between the `;` one by one,
-- from left to right.
pub parse_cookie_header-pieces :
    (s : Bytes) → parse_cookie_header s ≡ foldl push_cookie [] (pieces b';' s)
unfolding parse_cookie_header
parse_cookie_header-pieces s = scan_pieces-foldl b';' push_cookie (size s + 1) 0 s [] (omega arith)

step-IsTable : (m : HashMap Bytes) (p : Bytes) → IsTable m → IsTable (insert_param m p)
unfolding insert_param
step-IsTable m p h = elim (Option-cases (find b'=' p)) [
  | inl e ↦ rw (insert_param, e) (insert-IsTable _ _ m h)
  | inr (k, e) ↦ rw (insert_param, e) (insert-IsTable _ _ m h)
]

foldl-IsTable : (l : List Bytes) (m : HashMap Bytes) → IsTable m → IsTable (foldl insert_param m l)
foldl-IsTable [] m h = h
foldl-IsTable (p ∷ l) m h = foldl-IsTable l (insert_param m p) (step-IsTable m p h)

-- The parameters that parse_query_string leaves hold each name once, whatever the text.
pub parse_query-IsTable : (q : Bytes) → IsTable (parse_query q)
parse_query-IsTable q = rw (parse_query-pieces q) (foldl-IsTable (pieces b'&' q) [] tt)
