-- ===== src/Response/Files.antt =====
-- Files as bodies: send_file and send_file_range of src/http/response.cpp. The file system is a
-- parameter: the contents of a file that can be opened.
use http_web_framework.Prelude.{
  Bool, List, Option, [], false, if◌then◌else◌, leb, ltb, none, some, true, ℕ, ◌+◌, ◌-◌, ◌||◌, ◌∷◌,
}
use http_web_framework.Text.{
  Bytes, codes, same_text, rfind, size, stream, substr, substr_from, to_string,
}
use http_web_framework.Response.{Response, set_header, set_status_code}
use http_web_framework.Response.Headers.{set_content_type, update_content_length}

-- The extensions of the chain of `else if`, in its order.
abbrev pub media_types : List (Bytes × Bytes)
media_types =
    (codes "html", codes "text/html")
    ∷ (codes "htm", codes "text/html")
    ∷ (codes "css", codes "text/css")
    ∷ (codes "js", codes "application/javascript")
    ∷ (codes "json", codes "application/json")
    ∷ (codes "xml", codes "application/xml")
    ∷ (codes "png", codes "image/png")
    ∷ (codes "jpg", codes "image/jpeg")
    ∷ (codes "jpeg", codes "image/jpeg")
    ∷ (codes "gif", codes "image/gif")
    ∷ (codes "svg", codes "image/svg+xml")
    ∷ (codes "pdf", codes "application/pdf")
    ∷ []

media_type_in : List (Bytes × Bytes) → Bytes → Bytes
media_type_in [] extension = codes "application/octet-stream"
media_type_in ((e, t) ∷ types) extension =
    if same_text extension e then t else media_type_in types extension

unfoldable pub media_type : Bytes → Bytes
unfolding media_type_in
media_type extension = media_type_in media_types extension

-- The content type for a path with a dot in it; without one the header is left alone.
unfoldable pub set_media_type : Bytes → Response → Response
set_media_type file_path r = elim (rfind b'.' file_path) [
  | none ↦ r
  | some p ↦ set_content_type (media_type (substr_from file_path (p + 1))) r
]

-- The response with the bytes from `start` to `end`, once the range is accepted.
unfoldable pub fill_range : Bytes → ℕ → ℕ → Response → Response
fill_range content start end r = update_content_length (
    set_header (codes "Accept-Ranges") (codes "bytes") (
      set_header (codes "Content-Range")
        (stream (
          codes "bytes "
          ∷ to_string start
          ∷ codes "-"
          ∷ to_string end
          ∷ codes "/"
          ∷ to_string (size content)
          ∷ []))
        (set_status_code 206 (record r { body = substr content start (end - start + 1) }))))

module _ (read_file : Bytes → Option Bytes) where
  unfoldable pub send_file : Bytes → Response → Response × Bool
  send_file file_path r = elim (read_file file_path) [
    | none ↦ (r, false)
    | some content ↦
        (update_content_length (set_media_type file_path (record r { body = content })), true)
  ]

  unfoldable pub send_file_range : Bytes → ℕ → ℕ → Response → Response × Bool
  send_file_range file_path start end r = elim (read_file file_path) [
    | none ↦ (r, false)
    | some content ↦
        if leb (size content) start || leb (size content) end || ltb end start
        then (r, false)
        else (fill_range content start end r, true)
  ]
