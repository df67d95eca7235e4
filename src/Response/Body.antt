-- ===== src/Response/Body.antt =====
-- The body of a response: set_body, the chunks, the typed bodies, send_error and the redirects of
-- src/http/response.cpp, and the `set_body` of include/http/response.hpp.
use http_web_framework.Prelude.{List, [], false, if◌then◌else◌, ℕ, ◌++◌, ◌==◌, ◌∷◌}
use http_web_framework.Text.{Bytes, codes, empty, stream, to_string}
use http_web_framework.Types.{CompressionType}
use http_web_framework.Response.{Response, set_status_code, set_status_message}
use http_web_framework.Response.Headers.{
  enable_chunked_encoding, set_content_type, set_location, update_content_length,
}

unfoldable pub set_body : Bytes → Response → Response
set_body b r = update_content_length (record r { body = b; chunked = false })

-- The overload for a buffer, which leaves the headers alone.
unfoldable pub set_body_buffer : Bytes → Response → Response
set_body_buffer b r = record r { body = b; chunked = false }

unfoldable pub append_body_chunk : Bytes → Response → Response
append_body_chunk chunk r =
    let r' = if r.chunked then r else enable_chunked_encoding r in
    record r' { body = r'.body ++ chunk }

-- The branch holds only a comment.
unfoldable pub finish_chunked_body : Response → Response
finish_chunked_body r = r

unfoldable pub set_html_body : Bytes → Response → Response
set_html_body b r = set_content_type (codes "text/html; charset=utf-8") (set_body b r)

unfoldable pub set_text_body : Bytes → Response → Response
set_text_body b r = set_content_type (codes "text/plain; charset=utf-8") (set_body b r)

unfoldable pub set_xml_body : Bytes → Response → Response
set_xml_body b r = set_content_type (codes "application/xml; charset=utf-8") (set_body b r)

unfoldable pub set_css_body : Bytes → Response → Response
set_css_body b r = set_content_type (codes "text/css; charset=utf-8") (set_body b r)

unfoldable pub set_javascript_body : Bytes → Response → Response
set_javascript_body b r =
    set_content_type (codes "application/javascript; charset=utf-8") (set_body b r)

-- The cases of the `switch` of `get_status_message`.
abbrev pub status_messages : List (ℕ × Bytes)
status_messages =
    (100, codes "Continue")
    ∷ (101, codes "Switching Protocols")
    ∷ (200, codes "OK")
    ∷ (201, codes "Created")
    ∷ (202, codes "Accepted")
    ∷ (204, codes "No Content")
    ∷ (206, codes "Partial Content")
    ∷ (300, codes "Multiple Choices")
    ∷ (301, codes "Moved Permanently")
    ∷ (302, codes "Found")
    ∷ (304, codes "Not Modified")
    ∷ (400, codes "Bad Request")
    ∷ (401, codes "Unauthorized")
    ∷ (403, codes "Forbidden")
    ∷ (404, codes "Not Found")
    ∷ (405, codes "Method Not Allowed")
    ∷ (409, codes "Conflict")
    ∷ (413, codes "Payload Too Large")
    ∷ (414, codes "URI Too Long")
    ∷ (415, codes "Unsupported Media Type")
    ∷ (429, codes "Too Many Requests")
    ∷ (500, codes "Internal Server Error")
    ∷ (501, codes "Not Implemented")
    ∷ (502, codes "Bad Gateway")
    ∷ (503, codes "Service Unavailable")
    ∷ (504, codes "Gateway Timeout")
    ∷ []

-- The case of a `switch` over the given cases, or the default.
switch : List (ℕ × Bytes) → Bytes → ℕ → Bytes
switch [] default c = default
switch ((k, m) ∷ cases) default c = if k == c then m else switch cases default c

unfoldable pub get_status_message : ℕ → Bytes
unfolding switch
get_status_message c = switch status_messages (codes "Unknown Status") c

-- The page that `send_error` writes.
unfoldable pub error_html : ℕ → Bytes → Bytes
error_html c message = stream (
    codes "<!DOCTYPE html><html><head><title>Error "
    ∷ to_string c
    ∷ codes "</title></head><body>"
    ∷ codes "<h1>Error "
    ∷ to_string c
    ∷ codes "</h1>"
    ∷ codes "<p>"
    ∷ message
    ∷ codes "</p>"
    ∷ codes "</body></html>"
    ∷ [])

unfoldable pub send_error : ℕ → Bytes → Response → Response
send_error c message r =
    let text = if empty message then get_status_message c else message in
    set_html_body (error_html c text) (set_status_message text (set_status_code c r))

-- The page that `redirect` writes.
unfoldable pub redirect_html : Bytes → Bytes
redirect_html url = stream (
    codes "<!DOCTYPE html><html><head><title>Redirect</title></head><body>"
    ∷ codes "<p>Redirecting to <a href=\""
    ∷ url
    ∷ codes "\">"
    ∷ url
    ∷ codes "</a></p>"
    ∷ codes "</body></html>"
    ∷ [])

unfoldable pub redirect : Bytes → ℕ → Response → Response
redirect url c r = set_html_body (redirect_html url) (set_location url (set_status_code c r))

unfoldable pub permanent_redirect : Bytes → Response → Response
permanent_redirect url r = redirect url 301 r

unfoldable pub temporary_redirect : Bytes → Response → Response
temporary_redirect url r = redirect url 302 r

-- Compression is not implemented: the data is returned as it is.
unfoldable pub compress_body : Bytes → CompressionType → Bytes
compress_body b t = b
