-- ===== src/Microservice.antt =====
-- examples/modern_microservice.cpp: the messages of the gRPC service and their text form, the event and
-- the command of users, the class User (User), the class UserService (Service), and the handlers of
-- the addresses under /users (Handlers).
pub mod User
pub mod Service
pub mod Handlers
pub mod Refusal
pub mod Messages
pub mod Json
pub mod Setup
use http_web_framework.Prelude.{
  Bool, Option, [], false, if◌then◌else◌, none, not, some, true, ℕ, ◌%◌, ◌&&◌, ◌++◌, ◌+◌, ◌^◌, ◌∷◌,
}
use http_web_framework.Text.{
  Bytes, codes, empty, find, same_text, size, substr, substr_from, to_string,
}
use http_web_framework.Grpc.{ProtobufMessage}

pub record CreateUserRequest : Type 0 where
  pub email : Bytes
  pub name : Bytes

pub record CreateUserResponse : Type 0 where
  pub user_id : Bytes
  pub success : Bool

-- What stands before a position and behind it, if there is one.
unfoldable pub split_at : Bytes → Option ℕ → Option (Bytes × Bytes)
split_at data' none = none
split_at data' (some pos) = some (substr data' 0 pos, substr_from data' (pos + 1))

-- The two parts around the first ':'.
unfoldable pub split_message : Bytes → Option (Bytes × Bytes)
split_message data' = split_at data' (find b':' data')

unfoldable pub request_to_string : CreateUserRequest → Bytes
request_to_string m = m.email ++ b':' ∷ m.name

unfoldable pub parse_request : Bytes → CreateUserRequest → Bool × CreateUserRequest
parse_request data' m = elim (split_message data') [
  | none ↦ (false, m)
  | some (first, rest) ↦ (true, record { email = first; name = rest })
]

-- `CreateUserRequest` as a message of include/grpc/server.hpp.
unfoldable pub create_user_request : ProtobufMessage CreateUserRequest
create_user_request = record {
  initial = record { email = []; name = [] };
  serialize_to_string = request_to_string;
  parse_from_string = parse_request;
  is_initialized = λ m. not (empty m.email) && not (empty m.name);
}

unfoldable pub response_to_string : CreateUserResponse → Bytes
response_to_string m = m.user_id ++ b':' ∷ (if m.success then codes "1" else codes "0")

unfoldable pub parse_response : Bytes → CreateUserResponse → Bool × CreateUserResponse
parse_response data' m = elim (split_message data') [
  | none ↦ (false, m)
  | some (first, rest) ↦ (true, record { user_id = first; success = same_text rest (codes "1") })
]

unfoldable pub create_user_response : ProtobufMessage CreateUserResponse
create_user_response = record {
  initial = record { user_id = []; success = false };
  serialize_to_string = response_to_string;
  parse_from_string = parse_response;
  is_initialized = λ m. not (empty m.user_id);
}

-- `ByteSizeLong`
unfoldable pub request_byte_size : CreateUserRequest → ℕ
request_byte_size m = size m.email + size m.name + 1

unfoldable pub response_byte_size : CreateUserResponse → ℕ
response_byte_size m = size m.user_id + 2

-- Time points are numbers; the default one is 0.
pub record UserCreatedEvent : Type 0 where
  pub user_id : Bytes
  pub email : Bytes
  pub name : Bytes
  pub created_at : ℕ

unfoldable pub serialize : UserCreatedEvent → Bytes
serialize e =
    codes "{\"user_id\":\""
    ++ (e.user_id
        ++ (codes "\",\"email\":\""
            ++ (e.email ++ (codes "\",\"name\":\"" ++ (e.name ++ codes "\"}")))))

-- The event is not read from the data: it is the default one.
unfoldable pub deserialize : Bytes → Option UserCreatedEvent
deserialize data' = some record { user_id = []; email = []; name = []; created_at = 0 }

pub record CreateUserCommand : Type 0 where
  pub email : Bytes
  pub name : Bytes

unfoldable pub validate : CreateUserCommand → Bool
validate c = not (empty c.email) && not (empty c.name)

-- `aggregate_id()`, over its counter: the identifier, and the counter behind it.
unfoldable pub aggregate_id : ℕ → Bytes × ℕ
aggregate_id counter = let next = (counter + 1) % 2 ^ 64 in (codes "user_" ++ to_string next, next)
