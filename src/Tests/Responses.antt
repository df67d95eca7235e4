-- ===== src/Tests/Responses.antt =====
-- Runs of the response operations, and instances of their theorems.
use http_web_framework.Prelude.{
  Option, [], false, if◌then◌else◌, refl, some, true, ◌++◌, ◌∷◌, ◌≡◌, ◌⊎◌,
}
use http_web_framework.Text.{Bytes, codes, same_text, size, stream, to_string}
use http_web_framework.Types.{http_1_1, no_compression}
use http_web_framework.Response.{Response, get_header, normalize_header_name}
use http_web_framework.Response.Body.{set_body}
use http_web_framework.Response.Files.{send_file_range}
use http_web_framework.Response.Length.{content_length, set_body_length}
use http_web_framework.Response.Chunks.{IsFramed, append_all, append_all-IsFramed}
use http_web_framework.Response.Ranges.{InFile, IsRange, send_file_range-IsRange}

abbrev pub plain : Response
plain = record {
  status_code = 200;
  status_message = codes "OK";
  version = http_1_1;
  headers = record { name = codes "Server"; value = codes "x" } ∷ [];
  cookies = [];
  body = codes "old";
  compression_type = no_compression;
  chunked = false;
  headers_sent = false;
  timestamp = 0;
  attributes = [];
}

set_body_length_example :
    (get_header (codes "server") (set_body (codes "hi") plain) ≡ (
      if same_text (normalize_header_name content_length) (normalize_header_name (codes "server"))
      then some (to_string (size (codes "hi")))
      else get_header (codes "server") plain))
    × ((set_body (codes "hi") plain).body ≡ codes "hi")
    × ((set_body (codes "hi") plain).chunked ≡ false)
set_body_length_example = set_body_length (codes "server") (codes "hi") plain (cc)

append_all-IsFramed_example :
    ((append_all (codes "a" ∷ codes "b" ∷ []) plain).body
      ≡ plain.body ++ stream (codes "a" ∷ codes "b" ∷ []))
    × ((append_all (codes "a" ∷ codes "b" ∷ []) plain).chunked ≡ true)
    × IsFramed (append_all (codes "a" ∷ codes "b" ∷ []) plain)
append_all-IsFramed_example = append_all-IsFramed (codes "a") (codes "b" ∷ []) plain (λ e. cc)

-- A file system in which every file holds the same five bytes.
abbrev five : Bytes → Option Bytes
five path = some (codes "abcde")

send_file_range-IsRange_example :
    (InFile 1 3 (codes "abcde")
      × ((send_file_range five (codes "f") 1 3 plain).1 ≡ true)
      × IsRange (codes "abcde") 1 3 (send_file_range five (codes "f") 1 3 plain).0)
    ⊎ ((¬ InFile 1 3 (codes "abcde"))
        × (send_file_range five (codes "f") 1 3 plain ≡ (plain, false)))
send_file_range-IsRange_example =
    send_file_range-IsRange five (codes "f") (codes "abcde") 1 3 plain refl
