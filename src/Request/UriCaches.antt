-- ===== src/Request/UriCaches.antt =====
-- The caches of the parts of the address: when the getters may be trusted.
use http_web_framework.Prelude.{Option, arith, none, refl, some, ◌≡◌, ◌⊎◌}
use http_web_framework.Text.{Bytes}
use http_web_framework.Request.{Request, set_uri}
use http_web_framework.Request.Uri.{
  fragment_of, get_fragment, get_path, get_query_string, parse_uri, path_of, query_of,
}

-- A cache is empty or holds the part of the address.
abbrev pub Caches : Option Bytes → Bytes → Type 0
Caches c part = (c ≡ none) ⊎ (c ≡ some part)

pub record IsCoherent (r : Request) : Type 0 where
  pub path : Caches r.cached_path (path_of r.uri)
  pub query : Caches r.cached_query_string (query_of r.uri)
  pub fragment : Caches r.cached_fragment (fragment_of r.uri)

-- All that the getters keep: the address, the headers and the body.
abbrev pub SameMessage : Request → Request → Type 0
SameMessage r s = (r.uri ≡ s.uri) × (r.headers ≡ s.headers) × (r.body ≡ s.body)

-- A getter returned the part, and left a coherent request with the same message.
abbrev pub Returns : Bytes → Request → Bytes × Request → Type 0
Returns part r (v, s) = (v ≡ part) × IsCoherent s × SameMessage s r

get_path-Returns : (r : Request) → IsCoherent r → Returns (path_of r.uri) r (get_path r)
unfolding get_path
get_path-Returns r c = ground arith

get_query_string-Returns :
    (r : Request) → IsCoherent r → Returns (query_of r.uri) r (get_query_string r)
unfolding get_query_string
get_query_string-Returns r c = ground arith

get_fragment-Returns : (r : Request) → IsCoherent r → Returns (fragment_of r.uri) r (get_fragment r)
unfolding get_fragment
get_fragment-Returns r c = ground arith

-- On coherent caches each getter returns the part of the address as it is now, leaves the caches
-- coherent, and changes neither address nor headers nor body.
pub getters-Returns :
    (r : Request)
    → IsCoherent r
    → Returns (path_of r.uri) r (get_path r)
      × Returns (query_of r.uri) r (get_query_string r)
      × Returns (fragment_of r.uri) r (get_fragment r)
getters-Returns r c = (get_path-Returns r c, get_query_string-Returns r c, get_fragment-Returns r c)

-- `parse_uri` makes the caches coherent whatever they held, and fills them.
pub parse_uri-IsCoherent :
    (r : Request)
    → ((parse_uri r).cached_path ≡ some (path_of r.uri))
      × ((parse_uri r).cached_query_string ≡ some (query_of r.uri))
      × ((parse_uri r).cached_fragment ≡ some (fragment_of r.uri))
      × ((parse_uri r).uri ≡ r.uri)
unfolding parse_uri get_path get_query_string get_fragment
parse_uri-IsCoherent r = (refl, refl, refl, refl)

-- Once the parts have been read, a new address is not seen: the getters go on returning the parts
-- of the old one.
pub getters-set_uri_stale :
    (u : Bytes) (r : Request)
    → ((get_path (set_uri u (get_path r).1)).0 ≡ (get_path r).0)
      × ((get_query_string (set_uri u (get_query_string r).1)).0 ≡ (get_query_string r).0)
      × ((get_fragment (set_uri u (get_fragment r).1)).0 ≡ (get_fragment r).0)
unfolding get_path get_query_string get_fragment set_uri
getters-set_uri_stale u r = ground arith
