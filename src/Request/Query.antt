-- ===== src/Request/Query.antt =====
-- Query strings and form bodies: url_decode, parse_query_string, parse_form_data and
-- parse_multipart_data of src/http/request.cpp.
use http_web_framework.Prelude.{Option, [], if◌then◌else◌, none, not, some, ℕ, ◌+◌, ◌==◌, ◌∷◌}
use http_web_framework.Text.{
  Bytes, codes, contains, empty, find, scan_pieces, size, stoi_mod, substr, substr_from,
}
use http_web_framework.Fields.{HashMap, insert, insert_all}
use http_web_framework.Request.{Request, body_as_string}
use http_web_framework.Request.Uri.{get_query_string}
use http_web_framework.Request.Message.{content_type}

-- The byte that stands for itself, or for a space.
unfoldable pub plain : ℕ → ℕ
plain c = if c == b'+' then b' ' else c

-- `static_cast<char>(std::stoi(hex_str, nullptr, 16))` behind a `%`; `none` is an exception, or
-- another byte than `%`.
unfoldable pub escape : ℕ → ℕ → ℕ → Option ℕ
escape c a b = if c == b'%' then stoi_mod 8 16 (a ∷ b ∷ []) else none

-- A `%` is an escape only if two more bytes follow, `i + 2 < encoded.size()`.
unfoldable pub url_decode : Bytes → Bytes
url_decode [] = []
url_decode (c ∷ []) = plain c ∷ []
url_decode (c ∷ a ∷ []) = plain c ∷ url_decode (a ∷ [])
url_decode (c ∷ a ∷ b ∷ s) = elim (escape c a b) [
  | some d ↦ d ∷ url_decode s
  | none ↦ plain c ∷ url_decode (a ∷ b ∷ s)
]

-- One parameter: the body of the loop of `parse_query_string`.
unfoldable pub insert_param : HashMap Bytes → Bytes → HashMap Bytes
insert_param params param = elim (find b'=' param) [
  | none ↦ insert (url_decode param) [] params
  | some e ↦ insert (url_decode (substr param 0 e)) (url_decode (substr_from param (e + 1))) params
]

-- The loop over `start`; a round consumes at least one byte, so `query.size()` rounds are enough.
unfoldable pub parse_query : Bytes → HashMap Bytes
parse_query query =
    if empty query then [] else scan_pieces b'&' insert_param (size query + 1) 0 query []

unfoldable pub parse_query_string : Request → Request
parse_query_string r =
    let (query_string, r') = get_query_string (record r { query_params = [] }) in
    if empty query_string then r' else record r' { query_params = parse_query query_string }

unfoldable pub parse_form_data : Request → Request
parse_form_data r = elim (content_type r) [
  | none ↦ r
  | some t ↦
      if not (contains t (codes "application/x-www-form-urlencoded"))
      then r
      else record r { query_params = insert_all (parse_query (body_as_string r)) r.query_params }
]

-- Both branches return; nothing is parsed.
unfoldable pub parse_multipart_data : Request → Request
parse_multipart_data r = elim (content_type r) [
  | none ↦ r
  | some t ↦ if not (contains t (codes "multipart/form-data")) then r else r
]
