-- ===== src/Response/Headers.antt =====
-- The headers with a meaning: set_content_type to disable_chunked_encoding, the download, cache
-- and cross-origin headers, update_content_length and add_default_headers of src/http/response.cpp.
use http_web_framework.Prelude.{Bool, [], false, if◌then◌else◌, not, true, ℕ, ◌&&◌, ◌∷◌}
use http_web_framework.Text.{Bytes, codes, empty, size, stream, to_string}
use http_web_framework.Types.{CompressionType, brotli, deflate, gzip, no_compression}
use http_web_framework.Response.{Response, has_header, remove_header, set_header}

unfoldable pub set_content_type : Bytes → Response → Response
set_content_type v r = set_header (codes "Content-Type") v r

unfoldable pub set_content_length : ℕ → Response → Response
set_content_length n r = set_header (codes "Content-Length") (to_string n) r

unfoldable pub set_cache_control : Bytes → Response → Response
set_cache_control v r = set_header (codes "Cache-Control") v r

unfoldable pub set_etag : Bytes → Response → Response
set_etag v r = set_header (codes "ETag") v r

-- The text of a time point comes from the system clock and the C library, a parameter.
unfoldable pub set_last_modified : (ℕ → Bytes) → ℕ → Response → Response
set_last_modified format_timestamp t r = set_header (codes "Last-Modified") (format_timestamp t) r

unfoldable pub set_location : Bytes → Response → Response
set_location v r = set_header (codes "Location") v r

unfoldable pub set_cors_headers : Bytes → Response → Response
set_cors_headers origin r =
    set_header (codes "Access-Control-Allow-Headers") (codes "Content-Type, Authorization") (
      set_header (codes "Access-Control-Allow-Methods") (codes "GET, POST, PUT, DELETE, OPTIONS")
        (set_header (codes "Access-Control-Allow-Origin") origin r))

unfoldable pub enable_compression : CompressionType → Response → Response
enable_compression t r =
    let r' = record r { compression_type = t } in
    elim t [
      | gzip ↦ set_header (codes "Content-Encoding") (codes "gzip") r'
      | deflate ↦ set_header (codes "Content-Encoding") (codes "deflate") r'
      | brotli ↦ set_header (codes "Content-Encoding") (codes "br") r'
      | no_compression ↦ remove_header (codes "Content-Encoding") r'
    ]

unfoldable pub disable_compression : Response → Response
disable_compression r =
    remove_header (codes "Content-Encoding") (record r { compression_type = no_compression })

unfoldable pub is_compression_enabled : Response → Bool
is_compression_enabled r = elim r.compression_type [ no_compression ↦ false | _ ↦ true ]

-- Nothing is done for an empty body.
unfoldable pub update_content_length : Response → Response
update_content_length r =
    if not r.chunked && not (empty r.body) then set_content_length (size r.body) r else r

unfoldable pub enable_chunked_encoding : Response → Response
enable_chunked_encoding r =
    remove_header (codes "Content-Length")
      (set_header (codes "Transfer-Encoding") (codes "chunked") (record r { chunked = true }))

unfoldable pub disable_chunked_encoding : Response → Response
disable_chunked_encoding r =
    update_content_length (remove_header (codes "Transfer-Encoding") (record r { chunked = false }))

unfoldable pub set_download_headers : Bytes → Response → Response
set_download_headers filename r = set_content_type (codes "application/octet-stream") (
    set_header (codes "Content-Disposition")
      (stream (codes "attachment; filename=\"" ∷ filename ∷ codes "\"" ∷ [])) r)

unfoldable pub set_no_cache_headers : Response → Response
set_no_cache_headers r = set_header (codes "Expires") (codes "0") (
    set_header (codes "Pragma") (codes "no-cache")
      (set_cache_control (codes "no-cache, no-store, must-revalidate") r))

unfoldable pub set_cors_preflight_headers : Response → Response
set_cors_preflight_headers r =
    set_header (codes "Access-Control-Max-Age") (codes "86400") (set_cors_headers (codes "*") r)

-- `if (!has_header(name)) set_header(name, value);`
abbrev set_if_absent : Bytes → Bytes → Response → Response
set_if_absent n v r = if has_header n r then r else set_header n v r

unfoldable pub add_default_headers : (ℕ → Bytes) → ℕ → Response → Response
add_default_headers format_timestamp now r =
    set_if_absent (codes "Connection") (codes "keep-alive") (
      set_if_absent (codes "Date") (format_timestamp now)
        (set_if_absent (codes "Server") (codes "HttpFramework/1.0") r))
