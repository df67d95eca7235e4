-- ===== src/Response/Chunks.antt =====
-- Chunked transfer: the headers and the body of a response that is put together in chunks
-- (enable_chunked_encoding, disable_chunked_encoding and append_body_chunk).
use mathlib.Core.List.{foldl}
use http_web_framework.Prelude.{
  Bool-cases, List, [], ap, append_assoc, false, if◌then◌else◌, inl, inr, none, refl, some, true,
  ◌++◌, ◌∙◌, ◌∷◌, ◌≡◌, ◌≢◌, ◌⊎◌,
}
use http_web_framework.Text.{Bytes, codes, same_text, same_text_refl, size, stream, to_string}
use http_web_framework.Response.{
  Response, get_header, normalize_header_name, remove_header, set_header,
}
use http_web_framework.Response.Headers.{enable_chunked_encoding}
use http_web_framework.Response.Body.{append_body_chunk, set_body}
use http_web_framework.Response.Lookup.{remove_header_lem, set_header_lem}
use http_web_framework.Response.Length.{
  content_length, length_ne_encoding, set_body_length, transfer_encoding,
}

get_header_chunked :
    (m : Bytes) (r : Response) → get_header m (record r { chunked = true }) ≡ get_header m r
unfolding get_header
get_header_chunked m r = refl

get_header-enable :
    (m : Bytes) (r : Response)
    → get_header m (enable_chunked_encoding r) ≡ (
        if same_text (normalize_header_name content_length) (normalize_header_name m)
        then none
        else if same_text (normalize_header_name transfer_encoding) (normalize_header_name m)
        then some (codes "chunked")
        else get_header m r)
unfolding enable_chunked_encoding
get_header-enable m r =
    remove_header_lem m content_length _
    ∙ rw (set_header_lem m transfer_encoding (codes "chunked") (record r { chunked = true }))
        (rw (get_header_chunked m r))

-- A response that is sent in chunks says so, and gives no length.
abbrev pub IsFramed : Response → Type 0
IsFramed r =
    r.chunked ≡ true
    → (get_header transfer_encoding r ≡ some (codes "chunked"))
      × (get_header content_length r ≡ none)

enable_framed :
    (r : Response)
    → (get_header transfer_encoding (enable_chunked_encoding r) ≡ some (codes "chunked"))
      × (get_header content_length (enable_chunked_encoding r) ≡ none)
enable_framed r = (
  get_header-enable transfer_encoding r
      ∙ rw (length_ne_encoding, same_text_refl (normalize_header_name transfer_encoding)),
  get_header-enable content_length r ∙ rw (same_text_refl (normalize_header_name content_length)),
)

enable-fields :
    (r : Response)
    → ((enable_chunked_encoding r).chunked ≡ true) × ((enable_chunked_encoding r).body ≡ r.body)
unfolding enable_chunked_encoding set_header remove_header
enable-fields r = (refl, refl)

get_header_append :
    (m b : Bytes) (r : Response) → get_header m (record r { body = b }) ≡ get_header m r
unfolding get_header
get_header_append m b r = refl

append_cases :
    (chunk : Bytes) (r : Response)
    → ((r.chunked ≡ true) × (append_body_chunk chunk r ≡ record r { body = r.body ++ chunk }))
      ⊎ (append_body_chunk chunk r
          ≡ (let s = enable_chunked_encoding r in record s { body = s.body ++ chunk }))
unfolding append_body_chunk
append_cases chunk r = elim (Bool-cases r.chunked) [
  | inl on ↦ inl (on, rw (on, append_body_chunk))
  | inr off ↦ inr (rw (off, append_body_chunk))
]

-- A chunk is added to the body, and the response is framed as chunked from the first chunk on.
pub append_body_chunk-IsFramed :
    (chunk : Bytes) (r : Response)
    → IsFramed r
    → ((append_body_chunk chunk r).body ≡ r.body ++ chunk)
      × ((append_body_chunk chunk r).chunked ≡ true)
      × IsFramed (append_body_chunk chunk r)
unfolding get_header
append_body_chunk-IsFramed chunk r framed = elim (append_cases chunk r) [
  | inl (on, e) ↦ rw e (refl, on, λ _. framed on)
  | inr e ↦
      let (chunked, body) = enable-fields r in
      rw e (ap (λ b. b ++ chunk) body, chunked, λ _. enable_framed r)
]

-- A response that takes chunks one after the other, from any framed state.
pub append_all : List Bytes → Response → Response
append_all chunks r = foldl (λ s c. append_body_chunk c s) r chunks

-- Chunks in a row are joined in their order, and the response stays framed as chunked; with at
-- least one chunk it is chunked at the end.
pub append_all-IsFramed :
    (chunk : Bytes) (chunks : List Bytes) (r : Response)
    → IsFramed r
    → ((append_all (chunk ∷ chunks) r).body ≡ r.body ++ stream (chunk ∷ chunks))
      × ((append_all (chunk ∷ chunks) r).chunked ≡ true)
      × IsFramed (append_all (chunk ∷ chunks) r)
unfolding append_all
append_all-IsFramed chunk [] r framed = append_body_chunk-IsFramed chunk r framed
append_all-IsFramed chunk (next ∷ chunks) r framed =
    let (body, on, framed') = append_body_chunk-IsFramed chunk r framed in
    let (rest, on', last) = append_all-IsFramed next chunks (append_body_chunk chunk r) framed' in
    (rest ∙ ap (λ b. b ++ stream (next ∷ chunks)) body ∙ append_assoc r.body chunk _, on', last)

-- A body that is set on a chunked response gives it both a Content-Length and the
-- Transfer-Encoding of the chunks, which it is no longer sent in.
pub set_body_after_chunks :
    (b : Bytes) (r : Response)
    → b ≢ []
    → ((set_body b (enable_chunked_encoding r)).chunked ≡ false)
      × (get_header transfer_encoding (set_body b (enable_chunked_encoding r))
          ≡ some (codes "chunked"))
      × (get_header content_length (set_body b (enable_chunked_encoding r))
          ≡ some (to_string (size b)))
set_body_after_chunks b r h =
    let (coding, _, off) = set_body_length transfer_encoding b (enable_chunked_encoding r) h in
    let (length', _, _) = set_body_length content_length b (enable_chunked_encoding r) h in
    (
      off,
      coding ∙ rw length_ne_encoding (enable_framed r).0,
      length' ∙ rw (same_text_refl (normalize_header_name content_length)),
    )
