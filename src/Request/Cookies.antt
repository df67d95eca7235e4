-- ===== src/Request/Cookies.antt =====
-- The Cookie header: parse_cookie_header and parse_cookies of src/http/request.cpp.
use http_web_framework.Prelude.{List, [], none, some, ◌++◌, ◌+◌, ◌∷◌}
use http_web_framework.Text.{
  Bytes, codes, find, scan_pieces, size, substr, substr_from, trim_back, trim_front,
}
use http_web_framework.Types.{HttpCookie, new_cookie}
use http_web_framework.Request.{Request, get_header}

-- One cookie: the body of the loop. A piece with no `=` is passed over.
unfoldable pub push_cookie : List HttpCookie → Bytes → List HttpCookie
push_cookie cookies piece =
    let cookie_str = trim_back (trim_front piece) in
    elim (find b'=' cookie_str) [
      | none ↦ cookies
      | some e ↦
          cookies
          ++ new_cookie (trim_back (substr cookie_str 0 e))
              (trim_front (substr_from cookie_str (e + 1)))
            ∷ []
    ]

-- The loop over `start`; a round consumes at least one byte.
unfoldable pub parse_cookie_header : Bytes → List HttpCookie
parse_cookie_header s = scan_pieces b';' push_cookie (size s + 1) 0 s []

unfoldable pub parse_cookies : Request → Request
parse_cookies r = elim (get_header (codes "Cookie") r) [
  | none ↦ record r { cookies = [] }
  | some v ↦ record r { cookies = parse_cookie_header v }
]
