-- ===== src/Tests/Services.antt =====
-- Instances of the theorems on the gRPC handler and on the services of
-- examples/modern_microservice.cpp.
use http_web_framework.Prelude.{[], arith, false, none, refl, some, true, ℕ, ◌+◌, ◌≡◌}
use http_web_framework.Text.{Bytes, codes, find, same_text}
use http_web_framework.Throwing.{
  Action, Exception, Void, bad_optional_access, modify, pure, raise, returned, runtime_error, threw,
}
use http_web_framework.CircuitBreaker.{closed}
use http_web_framework.Grpc.{
  ServerResult, Status, deserialize_message, handle, ok_status, serialize_message,
}
use http_web_framework.EventSourcing.Repository.{Backend}
use http_web_framework.Grpc.Calls.{
  answer, answer_for, answer_read, handle_answer, IsOutcome, IsCalm,
}
use http_web_framework.Microservice.{
  CreateUserRequest, CreateUserResponse, UserCreatedEvent, aggregate_id, create_user_request,
  create_user_response, parse_request, serialize, split_at, split_message,
}
use http_web_framework.Microservice.User.{User, mark_events_as_committed}
use http_web_framework.Microservice.Service.{Services, State, create_user_call, next_user_id}
use http_web_framework.Microservice.Handlers.{extract_field}
use http_web_framework.Microservice.Refusal.{create_user_call-refused, refused}
use http_web_framework.Microservice.Messages.{deserialize_message-serialize_message}
use http_web_framework.Microservice.Json.{extract_field-serialize}

abbrev ada : CreateUserRequest
ada = record { email = codes "ada@a.org"; name = codes "Ada" }

abbrev ada_created : CreateUserResponse
ada_created = record { user_id = codes "user_1"; success = true }

deserialize_message-serialize_message_example :
    (deserialize_message create_user_request (serialize_message create_user_request ada) ≡ some ada)
    × (deserialize_message create_user_response (serialize_message create_user_response ada_created)
        ≡ some ada_created)
deserialize_message-serialize_message_example =
    deserialize_message-serialize_message ada ada_created (ground arith) (ground arith)

-- The state is the number of answers.
abbrev create_ada : CreateUserRequest → Action ℕ (ServerResult CreateUserResponse)
create_ada q = pure (record { status = ok_status; value = some ada_created })

abbrev count_answer : Bytes → Status → Action ℕ Void
count_answer d st = modify (λ n. n + 1)

abbrev no_response : Action ℕ CreateUserResponse
no_response = raise bad_optional_access

abbrev no_text : Exception → Bytes
no_text e = []

handle_answer_example :
    handle create_user_request create_user_response create_ada count_answer no_response no_text
      (codes "ada@a.org:Ada")
      0
    ≡ (returned tt, 1)
unfolding IsOutcome IsCalm answer_for answer_read answer deserialize_message create_user_request
    parse_request split_message find split_at
handle_answer_example =
    handle_answer create_user_request create_user_response create_ada no_text count_answer
      no_response (codes "ada@a.org:Ada") 0 (λ request ok. (ada_created, refl))
      (λ d st s. (s + 1, refl))

-- The rest of the world is the number of calls of the store.
abbrev user_backend : Backend (State ℕ) User
user_backend = record {
  append_to_stream = λ sid v events b. (
    returned (record { stream_id = sid; next_expected_version = 1; written_event_ids = [] }),
    record b { world = record b.world { rest = b.world.rest + 1 } },
  );
  read_stream_events_forward = λ sid start count b. (
    returned (record {
      stream_id = sid;
      from_version = 0;
      to_version = 0;
      events = [];
      is_end_of_stream = true;
    }),
    b,
  );
  build_aggregate_from_events = λ id events b. (threw (runtime_error []), b);
  try_load_from_snapshot = λ id b. (returned none, b);
  maybe_save_snapshot = λ u b. (returned tt, b);
  get_stream_id = λ id. id;
  id = λ u. u.user_id;
  get_uncommitted_events = λ u. u.uncommitted_events;
  mark_events_as_committed = mark_events_as_committed;
}

abbrev some_services : Services ℕ
some_services = record {
  send = λ command b. (returned (record { success = true; events = []; error_message = [] }), b);
  publish = λ event b. (returned tt, b);
  backend = user_backend;
  snapshots_enabled = false;
  start_active_span = λ name b. b;
  end_scope = λ b. b;
  set_attribute = λ k v b. b;
  set_status = λ ok message b. b;
  record_exception = λ e b. b;
  no_user_id = raise bad_optional_access;
  no_user = raise bad_optional_access;
}

abbrev user_breaker : State ℕ
user_breaker = record {
  config = record {
    timeout = 10000;
    success_threshold = 3;
    enable_timeout = true;
    max_concurrent_calls = 10;
  };
  current_state = closed;
  consecutive_successes = 0;
  concurrent_calls = 0;
  adaptive_timeout_enabled = false;
  jitter_enabled = false;
  bulkhead_enabled = false;
  clock = 0;
  world = record { user_counter = 0; event_counter = 0; rest = 0 };
}

create_user_call-refused_example :
    create_user_call some_services
      (record { email = codes "ada@a.org"; name = codes "Ada" })
      user_breaker
    ≡ (
      threw (runtime_error (codes "User already exists")),
      record user_breaker { world = record user_breaker.world { user_counter = 1 } },
    )
unfolding refused next_user_id aggregate_id
create_user_call-refused_example =
    create_user_call-refused some_services
      (record { email = codes "ada@a.org"; name = codes "Ada" }) user_breaker

abbrev ada_event : UserCreatedEvent
ada_event = record {
  user_id = codes "user_1";
  email = codes "ada@a.org";
  name = codes "Ada";
  created_at = 5;
}

extract_field-serialize_example :
    (extract_field (serialize ada_event) (codes "user_id") ≡ codes "user_1")
    × (extract_field (serialize ada_event) (codes "email") ≡ codes "ada@a.org")
    × (extract_field (serialize ada_event) (codes "name") ≡ codes "Ada")
unfolding same_text
extract_field-serialize_example =
    extract_field-serialize ada_event (ground arith) (ground arith) (ground arith) refl refl refl
