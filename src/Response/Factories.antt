-- ===== src/Response/Factories.antt =====
-- Ready responses: ok to service_unavailable of src/http/response.cpp.
use http_web_framework.Prelude.{if◌then◌else◌, ℕ}
use http_web_framework.Text.{Bytes, codes, empty}
use http_web_framework.Response.{Response, new_response, set_status_code, set_status_message}
use http_web_framework.Response.Body.{send_error, set_body}

-- `if (!body.empty()) response.set_body(body);`
abbrev set_body_if_any : Bytes → Response → Response
set_body_if_any b r = if empty b then r else set_body b r

module _ (now : ℕ) where
  unfoldable pub ok : Bytes → Response
  ok b =
      set_body_if_any b (set_status_message (codes "OK") (set_status_code 200 (new_response now)))

  unfoldable pub created : Bytes → Response
  created b =
      set_body_if_any b
        (set_status_message (codes "Created") (set_status_code 201 (new_response now)))

  unfoldable pub no_content : Response
  no_content = set_status_message (codes "No Content") (set_status_code 204 (new_response now))

  unfoldable pub bad_request : Bytes → Response
  bad_request message = send_error 400 message (new_response now)

  unfoldable pub unauthorized : Bytes → Response
  unauthorized message = send_error 401 message (new_response now)

  unfoldable pub forbidden : Bytes → Response
  forbidden message = send_error 403 message (new_response now)

  unfoldable pub not_found : Bytes → Response
  not_found message = send_error 404 message (new_response now)

  unfoldable pub method_not_allowed : Bytes → Response
  method_not_allowed message = send_error 405 message (new_response now)

  unfoldable pub internal_server_error : Bytes → Response
  internal_server_error message = send_error 500 message (new_response now)

  unfoldable pub service_unavailable : Bytes → Response
  service_unavailable message = send_error 503 message (new_response now)
