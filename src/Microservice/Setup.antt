-- ===== src/Microservice/Setup.antt =====
-- The constructor of ModernMicroservice of examples/modern_microservice.cpp, as the pointers that its
-- setup functions leave in the members. An object is known by a number; `none` is the null pointer
-- in a member, and behind a setup that goes through a null pointer there is no state.
pub mod Order
use http_web_framework.Prelude.{List, Option, [], none, some, ℕ, ◌+◌, ◌∷◌}

-- The members of a UserService.
pub record UserService : Type 0 where
  pub repository : Option ℕ
  pub command_bus : Option ℕ
  pub event_bus : Option ℕ
  pub circuit_breaker : Option ℕ

pub record Members : Type 0 where
  pub http_server : Option ℕ
  pub router : Option ℕ
  pub grpc_server : Option ℕ
  pub sse_server : Option ℕ
  pub event_store : Option ℕ
  pub user_repository : Option ℕ
  pub user_service : Option UserService
  pub circuit_breaker : Option ℕ
  pub objects : ℕ

unfoldable pub null_members : Members
null_members = record {
  http_server = none;
  router = none;
  grpc_server = none;
  sse_server = none;
  event_store = none;
  user_repository = none;
  user_service = none;
  circuit_breaker = none;
  objects = 0;
}

-- The store, the repository and the two buses are made, and then the service.
unfoldable pub setup_event_sourcing : Members → Members
setup_event_sourcing m =
    let n = m.objects in
    let service : UserService = record {
      repository = some (n + 1);
      command_bus = some (n + 2);
      event_bus = some (n + 3);
      circuit_breaker = m.circuit_breaker;
    } in
    record m {
      event_store = some n;
      user_repository = some (n + 1);
      user_service = some service;
      objects = n + 4;
    }

unfoldable pub setup_circuit_breaker : Members → Members
setup_circuit_breaker m = record m { circuit_breaker = some m.objects; objects = m.objects + 1 }

unfoldable pub setup_http_server : Members → Members
setup_http_server m = record m {
  http_server = some m.objects;
  router = some (m.objects + 1);
  objects = m.objects + 2;
}

-- The handler's routes are added to the router.
unfoldable pub setup_graphql : Members → Option Members
setup_graphql m = elim m.router [
  | none ↦ none
  | some router ↦ some (record m { objects = m.objects + 1 })
]

unfoldable pub setup_grpc_server : Members → Members
setup_grpc_server m = record m { grpc_server = some m.objects; objects = m.objects + 1 }

-- The server is made, and its route is added to the router.
unfoldable pub setup_sse_streaming : Members → Option Members
setup_sse_streaming m = elim m.router [
  | none ↦ none
  | some router ↦ some (record m { sse_server = some m.objects; objects = m.objects + 1 })
]

pub data Setup : Type 0 where
  tracing event_sourcing breaker http graphql grpc sse : Setup

-- setup_tracing changes no member.
unfoldable pub setup : Setup → Members → Option Members
setup tracing m = some m
setup event_sourcing m = some (setup_event_sourcing m)
setup breaker m = some (setup_circuit_breaker m)
setup http m = some (setup_http_server m)
setup graphql m = setup_graphql m
setup grpc m = some (setup_grpc_server m)
setup sse m = setup_sse_streaming m

unfoldable pub setup_all : List Setup → Members → Option Members
setup_all [] m = some m
setup_all (s ∷ steps) m = elim (setup s m) [ none ↦ none | some m' ↦ setup_all steps m' ]

-- The order of the constructor.
unfoldable pub constructor_steps : List Setup
constructor_steps = tracing ∷ event_sourcing ∷ breaker ∷ http ∷ graphql ∷ grpc ∷ sse ∷ []
