-- ===== src/Grpc/Context.antt =====
-- ServerContext and the other constructors of Status of include/grpc/server.hpp.
use http_web_framework.Prelude.{Bool, List, Option, [], false, none, some, true, ℕ, ◌++◌, ◌∷◌}
use http_web_framework.Text.{Bytes}
use http_web_framework.Types.{Attribute, AttributeType}
use http_web_framework.Connection.{UserData, as_type}
use http_web_framework.Grpc.{
  Status, cancelled, deadline_exceeded, new_status, not_found, unimplemented,
}

unfoldable pub cancelled_status : Bytes → Status
cancelled_status message = new_status cancelled message

unfoldable pub deadline_exceeded_status : Bytes → Status
deadline_exceeded_status message = new_status deadline_exceeded message

unfoldable pub not_found_status : Bytes → Status
not_found_status message = new_status not_found message

unfoldable pub unimplemented_status : Bytes → Status
unimplemented_status message = new_status unimplemented message

-- Without the metadata, whose operations have no body in the repository, and the start time.
pub record ServerContext : Type 0 where
  pub is_cancelled : Bool
  pub deadline : Option ℕ
  pub peer : Bytes
  pub method : Bytes
  pub user_data : UserData

unfoldable pub new_context : ServerContext
new_context = record {
  is_cancelled = false;
  deadline = none;
  peer = [];
  method = [];
  user_data = none;
}

unfoldable pub cancel : ServerContext → ServerContext
cancel ctx = record ctx { is_cancelled = true }

unfoldable pub set_deadline : ℕ → ServerContext → ServerContext
set_deadline deadline' ctx = record ctx { deadline = some deadline' }

unfoldable pub set_peer : Bytes → ServerContext → ServerContext
set_peer p ctx = record ctx { peer = p }

unfoldable pub set_method : Bytes → ServerContext → ServerContext
set_method m ctx = record ctx { method = m }

unfoldable pub set_context_data : Attribute → ServerContext → ServerContext
set_context_data value ctx = record ctx { user_data = some value }

unfoldable pub get_context_data : AttributeType → ServerContext → Option Attribute
get_context_data t ctx = as_type t ctx.user_data

-- UnaryMethodHandler, and the methods of a ServiceBuilder; H is the type of the handlers.
pub record UnaryMethod (H : Type 0) : Type 0 where
  pub method_name : Bytes
  pub handler : H

unfoldable pub add_unary_method :
    {H : Type 0} → Bytes → H → List (UnaryMethod H) → List (UnaryMethod H)
add_unary_method method_name handler methods =
    methods ++ record { method_name = method_name; handler = handler } ∷ []
