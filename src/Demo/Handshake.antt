-- ===== src/Demo/Handshake.antt =====
-- The answer of websocket_handler of src/main.cpp to a request for an upgrade.
use http_web_framework.Prelude.{refl, some, true, ◌∙◌, ◌≡◌}
use http_web_framework.Text.{Bytes, codes, same_text, tolower, toupper}
use http_web_framework.Request.{Request, get_header as request_header}
use http_web_framework.Request.Message.{is_websocket_upgrade}
use http_web_framework.Response.{
  Response, capitalize, get_header, normalize_header_name, set_header, set_status_code,
}
use http_web_framework.Response.Lookup.{set_header_lem}
use http_web_framework.Demo.Middlewares.{websocket_handler}

abbrev pub accept_name : Bytes
accept_name = codes "Sec-WebSocket-Accept"

abbrev pub key_name : Bytes
key_name = codes "Sec-WebSocket-Key"

abbrev connection_name : Bytes
connection_name = codes "Connection"

abbrev upgrade_name : Bytes
upgrade_name = codes "Upgrade"

-- The response of an upgrade with an accept key.
abbrev upgraded : Bytes → Response → Response
upgraded accept res = set_header accept_name accept (
    set_header connection_name (codes "Upgrade")
      (set_header upgrade_name (codes "websocket") (set_status_code 101 res)))

get_header-upgraded :
    (accept : Bytes) (res : Response)
    → (get_header upgrade_name (upgraded accept res) ≡ some (codes "websocket"))
      × (get_header connection_name (upgraded accept res) ≡ some (codes "Upgrade"))
      × (get_header accept_name (upgraded accept res) ≡ some accept)
unfolding same_text normalize_header_name capitalize toupper tolower
get_header-upgraded accept res = (
  set_header_lem upgrade_name accept_name accept _
      ∙ set_header_lem upgrade_name connection_name (codes "Upgrade") _
      ∙ set_header_lem upgrade_name upgrade_name (codes "websocket") _,
  set_header_lem connection_name accept_name accept _
      ∙ set_header_lem connection_name connection_name (codes "Upgrade") _,
  set_header_lem accept_name accept_name accept _,
)

status-upgraded : (accept : Bytes) (res : Response) → (upgraded accept res).status_code ≡ 101
unfolding set_header set_status_code
status-upgraded accept res = refl

-- A WebSocket upgrade that the request asks for is answered with 101, the Upgrade and Connection
-- headers, and the accept key that belongs to the request's key.
pub websocket_handler_upgrade :
    (calculate_accept_key : Bytes → Bytes) (key : Bytes) (req : Request) (res : Response)
    → is_websocket_upgrade req ≡ true
    → request_header (codes "Sec-WebSocket-Key") req ≡ some key
    → ((websocket_handler calculate_accept_key req res).status_code ≡ 101)
      × (get_header (codes "Upgrade") (websocket_handler calculate_accept_key req res)
          ≡ some (codes "websocket"))
      × (get_header (codes "Connection") (websocket_handler calculate_accept_key req res)
          ≡ some (codes "Upgrade"))
      × (get_header (codes "Sec-WebSocket-Accept") (websocket_handler calculate_accept_key req res)
          ≡ some (calculate_accept_key key))
unfolding websocket_handler
websocket_handler_upgrade calculate_accept_key key req res asked keyed =
    let accept = calculate_accept_key key in
    let e : websocket_handler calculate_accept_key req res ≡ upgraded accept res =
      rw (websocket_handler, asked, keyed) in
    let (upgrade, connection, accepted) = get_header-upgraded accept res in
    rw e (status-upgraded accept res, upgrade, connection, accepted)
