-- ===== src/Tests/Requests.antt =====
-- Runs of the request operations, and instances of their theorems.
use http_web_framework.Prelude.{[], arith, if◌then◌else◌, inl, none, refl, some, ◌↔◌, ◌∷◌, ◌≡◌}
use http_web_framework.Text.{codes, same_text}
use http_web_framework.Types.{Endpoint, HttpMethod, http_1_1, new_cookie, v4}
use http_web_framework.Request.{Request, get_header, normalize_header_name, set_header}
use http_web_framework.Request.Lookup.{get_header-set_header}
use http_web_framework.Request.Uri.{
  fragment_of, get_fragment, get_path, get_query_string, parse_uri, path_of, query_of,
}
use http_web_framework.Request.UriParts.{Parts, or_empty, parts-print_parts, print_parts}
use http_web_framework.Request.UriCaches.{Returns, getters-Returns, parse_uri-IsCoherent}
use http_web_framework.Names.{normalize_header_name_iff}
use http_web_framework.Response

abbrev client : Endpoint
client = record { address = v4 (127 ∷ 0 ∷ 0 ∷ 1 ∷ []); port = 5000 }

abbrev pub blank : Request
blank = record {
  method = HttpMethod.get;
  uri = codes "/a?b#c";
  version = http_1_1;
  headers = record { name = codes "host"; value = codes "x" } ∷ [];
  cookies = new_cookie (codes "sid") (codes "1") ∷ [];
  body = [];
  remote_endpoint = client;
  query_params = [];
  path_params = [];
  attributes = [];
  timestamp = 0;
  request_id = 0;
  cached_path = none;
  cached_query_string = none;
  cached_fragment = none;
}

get_header-set_header_example :
    get_header (codes "HOST") (set_header (codes "Host") (codes "y") blank) ≡ (
      if same_text (normalize_header_name (codes "Host")) (normalize_header_name (codes "HOST"))
      then some (codes "y")
      else get_header (codes "HOST") blank)
get_header-set_header_example =
    get_header-set_header (codes "HOST") (codes "Host") (codes "y") blank

normalize_header_name_iff_example :
    (Response.normalize_header_name (codes "ETag") ≡ Response.normalize_header_name (codes "eTAG"))
    ↔ (normalize_header_name (codes "ETag") ≡ normalize_header_name (codes "eTAG"))
normalize_header_name_iff_example = normalize_header_name_iff (codes "ETag") (codes "eTAG")

abbrev address : Parts
address = record { path = codes "/a/b"; query = some (codes "k=v?"); fragment = some (codes "top") }

parts-print_parts_example :
    (path_of (print_parts address) ≡ address.path)
    × (query_of (print_parts address) ≡ or_empty address.query)
    × (fragment_of (print_parts address) ≡ or_empty address.fragment)
parts-print_parts_example = parts-print_parts address (omega arith)

getters-Returns_example :
    Returns (path_of blank.uri) blank (get_path blank)
    × Returns (query_of blank.uri) blank (get_query_string blank)
    × Returns (fragment_of blank.uri) blank (get_fragment blank)
getters-Returns_example =
    getters-Returns blank (record { path = inl refl; query = inl refl; fragment = inl refl })

parse_uri-IsCoherent_example :
    ((parse_uri blank).cached_path ≡ some (path_of blank.uri))
    × ((parse_uri blank).cached_query_string ≡ some (query_of blank.uri))
    × ((parse_uri blank).cached_fragment ≡ some (fragment_of blank.uri))
    × ((parse_uri blank).uri ≡ blank.uri)
parse_uri-IsCoherent_example = parse_uri-IsCoherent blank
