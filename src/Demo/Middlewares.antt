-- ===== src/Demo/Middlewares.antt =====
-- websocket_handler, cors_middleware and auth_middleware of src/main.cpp.
use http_web_framework.Prelude.{if◌then◌else◌, none, some}
use http_web_framework.Text.{Bytes, codes, starts_with}
use http_web_framework.Types.{options}
use http_web_framework.Request.{Request, get_header as request_header}
use http_web_framework.Request.Message.{is_websocket_upgrade}
use http_web_framework.Middleware.{Next}
use http_web_framework.Response.{Response, set_header, set_status_code}
use http_web_framework.Response.Body.{send_error}

-- `WebSocket::calculate_accept_key` is declared in the repository and has no body: a parameter.
unfoldable pub websocket_handler : (Bytes → Bytes) → Request → Response → Response
websocket_handler calculate_accept_key req res =
    let upgraded =
      set_header (codes "Connection") (codes "Upgrade")
        (set_header (codes "Upgrade") (codes "websocket") (set_status_code 101 res)) in
    let answered : Response = elim (request_header (codes "Sec-WebSocket-Key") req) [
      | some websocket_key ↦
          set_header (codes "Sec-WebSocket-Accept") (calculate_accept_key websocket_key) upgraded
      | none ↦ upgraded
    ] in
    if is_websocket_upgrade req then answered else res

unfoldable pub cors_middleware : Request → Next → Response → Response
cors_middleware req next res =
    let res' =
      set_header (codes "Access-Control-Allow-Headers") (codes "Content-Type, Authorization") (
        set_header (codes "Access-Control-Allow-Methods") (codes "GET, POST, PUT, DELETE, OPTIONS")
          (set_header (codes "Access-Control-Allow-Origin") (codes "*") res)) in
    elim req.method [ options ↦ set_status_code 200 res' | _ ↦ next res' ]

unfoldable pub auth_middleware : Request → Next → Response → Response
auth_middleware req next res = elim (request_header (codes "Authorization") req) [
  | none ↦ send_error 401 (codes "Unauthorized") res
  | some auth_header ↦
      if starts_with auth_header (codes "Bearer ")
      then next res
      else send_error 401 (codes "Unauthorized") res
]
