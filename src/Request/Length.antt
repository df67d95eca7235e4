-- ===== src/Request/Length.antt =====
-- content_length of src/http/request.cpp on a header that was set to a number.
use http_web_framework.Prelude.{none, some, true, ℕ, ◌<◌, ◌^◌, ◌≡◌}
use http_web_framework.Text.{Bytes, codes, same_text, same_text_refl, stoull-to_string, to_string}
use http_web_framework.Request.{Request, normalize_header_name, remove_header, set_header}
use http_web_framework.Request.Lookup.{get_header-remove_header, get_header-set_header}
use http_web_framework.Request.Message.{content_length}

abbrev pub length_name : Bytes
length_name = codes "Content-Length"

-- A length below 2^64 that was set as text, under the header's name in any mixture of cases, is
-- read back as the number; behind remove_header there is none.
pub content_length-set_header :
    (n : Bytes) (k : ℕ) (r : Request)
    → normalize_header_name n ≡ normalize_header_name length_name
    → k < 2 ^ 64
    → (content_length (set_header n (to_string k) r) ≡ some k)
      × (content_length (remove_header n r) ≡ none)
unfolding content_length
content_length-set_header n k r h bound =
    let s : same_text (normalize_header_name n) (normalize_header_name length_name) ≡ true =
      rw h (same_text_refl (normalize_header_name length_name)) in
    (
      rw (content_length, get_header-set_header length_name n (to_string k) r, s)
          (stoull-to_string k bound),
      rw (content_length, get_header-remove_header length_name n r, s),
    )
