-- ===== src/Request/Message.antt =====
-- What the headers of a request say of the message: is_websocket_upgrade to origin of
-- src/http/request.cpp.
use http_web_framework.Prelude.{Bool, Option, false, is_some, none, some, true, ℕ, ◌&&◌}
use http_web_framework.Text.{Bytes, codes, contains, stoull}
use http_web_framework.Types.{http_1_1}
use http_web_framework.Request.{Request, get_header}

-- `value && value->find(needle) != npos`
abbrev mentions : Option Bytes → Bytes → Bool
mentions none needle = false
mentions (some v) needle = contains v needle

unfoldable pub is_websocket_upgrade : Request → Bool
is_websocket_upgrade r =
    is_some (get_header (codes "Upgrade") r)
    && is_some (get_header (codes "Connection") r)
    && is_some (get_header (codes "Sec-WebSocket-Key") r)
    && is_some (get_header (codes "Sec-WebSocket-Version") r)
    && mentions (get_header (codes "Upgrade") r) (codes "websocket")
    && mentions (get_header (codes "Connection") r) (codes "Upgrade")

unfoldable pub is_chunked : Request → Bool
is_chunked r = mentions (get_header (codes "Transfer-Encoding") r) (codes "chunked")

-- Without a Connection header the version decides.
unfoldable pub is_keep_alive : Request → Bool
is_keep_alive r = elim (get_header (codes "Connection") r) [
  | some v ↦ contains v (codes "keep-alive")
  | none ↦ elim r.version [ http_1_1 ↦ true | _ ↦ false ]
]

-- The exceptions of `std::stoull` are caught and give no length.
unfoldable pub content_length : Request → Option ℕ
content_length r = elim (get_header (codes "Content-Length") r) [ none ↦ none | some v ↦ stoull v ]

unfoldable pub content_type : Request → Option Bytes
content_type r = get_header (codes "Content-Type") r

unfoldable pub authorization : Request → Option Bytes
authorization r = get_header (codes "Authorization") r

unfoldable pub user_agent : Request → Option Bytes
user_agent r = get_header (codes "User-Agent") r

unfoldable pub referer : Request → Option Bytes
referer r = get_header (codes "Referer") r

unfoldable pub host : Request → Option Bytes
host r = get_header (codes "Host") r

unfoldable pub origin : Request → Option Bytes
origin r = get_header (codes "Origin") r
