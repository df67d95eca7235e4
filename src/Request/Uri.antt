-- ===== src/Request/Uri.antt =====
-- The parts of a request's address and their caches (get_path to extract_path_variables, and
-- parse_uri, of src/http/request.cpp). A getter returns the part and the request with its cache.
use mathlib.Core.List.{tail}
use http_web_framework.Prelude.{Bool, List, Option, [], is_some, min, none, some, ℕ, ◌+◌, ◌-◌, ◌∷◌}
use http_web_framework.Text.{Bytes, find, find_from, substr, substr_from}
use http_web_framework.Fields.{HashMap, insert}
use http_web_framework.Request.{Request}

-- `std::min` of two results of `find`, where `npos` is the largest position.
abbrev min_pos : Option ℕ → Option ℕ → Option ℕ
min_pos none q = q
min_pos (some p) none = some p
min_pos (some p) (some q) = some (min p q)

-- The part up to the first `?` or `#`.
unfoldable pub path_of : Bytes → Bytes
path_of uri = elim (min_pos (find b'?' uri) (find b'#' uri)) [
  | none ↦ uri
  | some p ↦ substr uri 0 p
]

-- The part behind the first `?`, up to the next `#`.
unfoldable pub query_of : Bytes → Bytes
query_of uri = elim (find b'?' uri) [
  | none ↦ []
  | some q ↦ elim (find_from b'#' q uri) [
    | none ↦ substr_from uri (q + 1)
    | some f ↦ substr uri (q + 1) (f - q - 1)
  ]
]

-- The part behind the first `#`.
unfoldable pub fragment_of : Bytes → Bytes
fragment_of uri = elim (find b'#' uri) [ none ↦ [] | some f ↦ substr_from uri (f + 1) ]

unfoldable pub get_path : Request → Bytes × Request
get_path r = elim r.cached_path [
  | some p ↦ (p, r)
  | none ↦ (path_of r.uri, record r { cached_path = some (path_of r.uri) })
]

unfoldable pub get_query_string : Request → Bytes × Request
get_query_string r = elim r.cached_query_string [
  | some q ↦ (q, r)
  | none ↦ (query_of r.uri, record r { cached_query_string = some (query_of r.uri) })
]

unfoldable pub get_fragment : Request → Bytes × Request
get_fragment r = elim r.cached_fragment [
  | some f ↦ (f, r)
  | none ↦ (fragment_of r.uri, record r { cached_fragment = some (fragment_of r.uri) })
]

unfoldable pub parse_uri : Request → Request
parse_uri r =
    let cleared = record r {
      cached_path = none;
      cached_query_string = none;
      cached_fragment = none;
    } in
    (get_fragment (get_query_string (get_path cleared).1).1).1

-- `std::regex_match` is a parameter: the whole match and the groups, if the text matches.
module _ {Regex : Type 0} (regex_match : Regex → Bytes → Option (List Bytes)) where
  unfoldable pub matches_path : Regex → Request → Bool × Request
  matches_path pattern' r = let (path, r') = get_path r in (is_some (regex_match pattern' path), r')

-- `for (i = 1; i < matches.size() && i - 1 < var_names.size(); ++i)`, over the matches from 1 on.
unfoldable pub bind_variables : List Bytes → List Bytes → HashMap Bytes → HashMap Bytes
bind_variables (n ∷ names) (m ∷ groups) variables =
    bind_variables names groups (insert n m variables)
bind_variables [] groups variables = variables
bind_variables (n ∷ names) [] variables = variables

module _ {Regex : Type 0} (regex_match : Regex → Bytes → Option (List Bytes)) where
  unfoldable pub extract_path_variables : Regex → List Bytes → Request → HashMap Bytes × Request
  extract_path_variables pattern' var_names r =
      let (path, r') = get_path r in
      (
        elim (regex_match pattern' path) [
          | none ↦ []
          | some groups ↦ bind_variables var_names (tail groups) []
        ],
        r',
      )
