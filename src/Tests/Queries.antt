-- ===== src/Tests/Queries.antt =====
-- Instances of the theorems on query strings, cookie headers and Content-Length.
use mathlib.Core.List.{foldl}
use http_web_framework.Prelude.{[], arith, ◌≡◌}
use http_web_framework.Text.{codes, pieces}
use http_web_framework.Request.Query.{insert_param, parse_query, url_decode}
use http_web_framework.Request.Cookies.{parse_cookie_header, push_cookie}
use http_web_framework.Request.Pieces.{parse_cookie_header-pieces, parse_query-pieces}
use http_web_framework.Request.Encoding.{url_decode-url_encode, url_encode}

parse_query-pieces_example :
    parse_query (codes "a=1&b=%20&c") ≡ foldl insert_param [] (pieces b'&' (codes "a=1&b=%20&c"))
parse_query-pieces_example = parse_query-pieces (codes "a=1&b=%20&c")

parse_cookie_header-pieces_example :
    parse_cookie_header (codes "a=1; b=2") ≡ foldl push_cookie [] (pieces b';' (codes "a=1; b=2"))
parse_cookie_header-pieces_example = parse_cookie_header-pieces (codes "a=1; b=2")

url_decode-url_encode_example : url_decode (url_encode (codes "a &")) ≡ codes "a &"
url_decode-url_encode_example =
    url_decode-url_encode (codes "a &") (ground arith, (ground arith, (ground arith, tt)))
