-- ===== src/Microservice/Messages.antt =====
-- The text forms of the gRPC messages of examples/modern_microservice.cpp, through serialize_message
-- and deserialize_message of include/grpc/server.hpp.
use http_web_framework.Prelude.{
  Bool, ap, arith, drop, drop-append-cons, false, if◌then◌else◌, length, none, not, refl, some, suc,
  take-append, true, ◌&&◌, ◌++◌, ◌+◌, ◌∙◌, ◌∷◌, ◌≡◌,
}
use http_web_framework.Text.{Bytes, Lacks, codes, empty, find-append, same_text}
use http_web_framework.Grpc.{deserialize_message, serialize_message}
use http_web_framework.Microservice.{
  CreateUserRequest, CreateUserResponse, create_user_request, create_user_response, parse_request,
  parse_response, request_to_string, response_to_string, split_at, split_message,
}

split_message-append : (s t : Bytes) → Lacks b':' s → split_message (s ++ b':' ∷ t) ≡ some (s, t)
unfolding split_message split_at
split_message-append s t h =
    let next : length s + 1 ≡ suc (length s) = omega arith in
    let behind : drop (length s + 1) (s ++ b':' ∷ t) ≡ t = rw next (drop-append-cons s b':' t) in
    ap (split_at (s ++ b':' ∷ t)) (find-append b':' s t h)
    ∙ rw (take-append s (b':' ∷ t), behind) refl

parse_request_lem :
    (m m' : CreateUserRequest)
    → Lacks b':' m.email
    → parse_request (request_to_string m) m' ≡ (true, m)
unfolding parse_request request_to_string
parse_request_lem m m' h = rw (parse_request, split_message-append m.email m.name h) refl

request_roundtrip :
    (m : CreateUserRequest)
    → Lacks b':' m.email
    → deserialize_message create_user_request (serialize_message create_user_request m)
      ≡ (if create_user_request.is_initialized m then some m else none)
unfolding deserialize_message serialize_message create_user_request
request_roundtrip m h = rw (parse_request_lem m (create_user_request.initial) h) refl

flag_roundtrip :
    (flag : Bool) → same_text (if flag then codes "1" else codes "0") (codes "1") ≡ flag
unfolding same_text
flag_roundtrip true = refl
flag_roundtrip false = refl

parse_response_lem :
    (m m' : CreateUserResponse)
    → Lacks b':' m.user_id
    → parse_response (response_to_string m) m' ≡ (true, m)
unfolding parse_response response_to_string
parse_response_lem m m' h =
    rw
      (
        parse_response,
        split_message-append m.user_id (if m.success then codes "1" else codes "0") h,
        flag_roundtrip m.success,
      )
      refl

response_roundtrip :
    (m : CreateUserResponse)
    → Lacks b':' m.user_id
    → deserialize_message create_user_response (serialize_message create_user_response m)
      ≡ (if create_user_response.is_initialized m then some m else none)
unfolding deserialize_message serialize_message create_user_response
response_roundtrip m h = rw (parse_response_lem m (create_user_response.initial) h) refl

-- A message that is sent is received as it was, if it is initialised, and is refused otherwise: a
-- request whose address has no ':', and a response whose identifier has none.
pub deserialize_message-serialize_message :
    (q : CreateUserRequest) (r : CreateUserResponse)
    → Lacks b':' q.email
    → Lacks b':' r.user_id
    → (deserialize_message create_user_request (serialize_message create_user_request q)
        ≡ (if not (empty q.email) && not (empty q.name) then some q else none))
      × (deserialize_message create_user_response (serialize_message create_user_response r)
          ≡ (if not (empty r.user_id) then some r else none))
unfolding create_user_request create_user_response
deserialize_message-serialize_message q r h k = (request_roundtrip q h, response_roundtrip r k)
