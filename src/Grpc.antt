-- ===== src/Grpc.antt =====
-- include/grpc/server.hpp: statuses and results, messages to and from bytes, and the handler of unary
-- methods. A call runs over a state that holds the context and what the handler and the callback
-- change.
pub mod Calls
pub mod Context
use http_web_framework.Prelude.{Bool, Option, [], false, if◌then◌else◌, none, some, true, ◌&&◌}
use http_web_framework.Text.{Bytes, codes}
use http_web_framework.Fields.{HashMap}
use http_web_framework.Throwing.{Action, Exception, Void, catch_std, pure, what, ◌>>=◌, ◌>>◌}

-- The enumeration, by its numbers.
pub data StatusCode : Type 0 where
  ok_code cancelled unknown invalid_argument deadline_exceeded not_found already_exists
        permission_denied resource_exhausted failed_precondition aborted out_of_range unimplemented
        internal unavailable data_loss unauthenticated :
      StatusCode

pub record Status : Type 0 where
  pub code : StatusCode
  pub message : Bytes
  pub details : HashMap Bytes

-- `Status(c, msg)`
unfoldable pub new_status : StatusCode → Bytes → Status
new_status c msg = record { code = c; message = msg; details = [] }

-- `Status::ok()` of a status
unfoldable pub is_ok_code : StatusCode → Bool
is_ok_code ok_code = true
is_ok_code c = false

unfoldable pub is_ok : Status → Bool
is_ok s = is_ok_code s.code

-- The static `Status::ok()`
unfoldable pub ok_status : Status
ok_status = new_status ok_code []

unfoldable pub invalid_argument_status : Bytes → Status
invalid_argument_status message = new_status invalid_argument message

unfoldable pub internal_error : Bytes → Status
internal_error message = new_status internal message

pub record ServerResult (T : Type 0) : Type 0 where
  pub status : Status
  pub value : Option T

-- The concept ProtobufMessage; `initial` is the default constructor.
pub record ProtobufMessage (M : Type 0) : Type 0 where
  pub initial : M
  pub serialize_to_string : M → Bytes
  pub parse_from_string : Bytes → M → Bool × M
  pub is_initialized : M → Bool

module _ {M : Type 0} (msg : ProtobufMessage M) where
  open msg use {initial, serialize_to_string, parse_from_string, is_initialized}

  unfoldable pub serialize_message : M → Bytes
  serialize_message message = serialize_to_string message

  unfoldable pub deserialize_message : Bytes → Option M
  deserialize_message str_data =
      let (parsed, message) = parse_from_string str_data initial in
      if parsed && is_initialized message then some message else none

-- UnaryMethodHandler: the handler, the callback for the answer, and the texts of the exceptions.
-- `*result.value` of an empty optional is undefined: `unchecked` is whatever it does.
module _ {S Q R : Type 0} (requests : ProtobufMessage Q) (responses : ProtobufMessage R)
    (handler : Q → Action S (ServerResult R)) (response_callback : Bytes → Status → Action S Void)
    (unchecked : Action S R) (text : Exception → Bytes) where
  -- The callback behind the handler's return.
  unfoldable pub reply : ServerResult R → Action S Void
  reply result =
      if is_ok result.status
      then (do
        v ← elim result.value [ some v ↦ pure v | none ↦ unchecked ]
        response_callback (serialize_message responses v) ok_status)
      else response_callback [] result.status

  -- The `try` block and its handler.
  unfoldable pub answer_request : Q → Action S Void
  answer_request request =
      catch_std (do result ← handler request; reply result)
        (λ e. response_callback [] (internal_error (what text e)))

  -- A request that was read, or none.
  unfoldable pub handle_read : Option Q → Action S Void
  handle_read none =
      response_callback [] (invalid_argument_status (codes "Failed to parse request"))
  handle_read (some request) = answer_request request

  unfoldable pub handle : Bytes → Action S Void
  handle request_data = handle_read (deserialize_message requests request_data)
