-- ===== src/Tests/Routers.antt =====
-- Instances of the theorems on controllers, on the data that applications leave, on statistics and on
-- the setup of the microservice, with lists of routes and short texts.
use mathlib.Core.Option
use http_web_framework.Prelude.{
  List, [], arith, false, if◌then◌else◌, map, none, refl, some, true, ℕ, ◌++◌, ◌∷◌, ◌≡◌, ◌≢◌,
}
use http_web_framework.Text.{Bytes, codes, same_text}
use http_web_framework.Types.{
  Attribute, AttributeType, HttpMethod, holds_alternative, int, int_type, pos, negsuc, str,
}
use http_web_framework.Router.{Controller, Method, Registration, controller}
use http_web_framework.Router.Controllers.{Entry, add_entries, entries_of, controller-entries_of}
use http_web_framework.Sse.{SseConnection, get_attribute, set_attribute}
use http_web_framework.Sse.Attributes.{get_attribute-set_attribute}
use http_web_framework.GraphQl as GraphQl
use http_web_framework.GraphQl.Values.{type_of, held, get-new_value}
use http_web_framework.Demo.Server.{stats_json}
use http_web_framework.Demo.Server.Statistics.{join, member, stats_json-join}
use http_web_framework.Microservice.Setup.{
  Members, UserService, breaker, constructor_steps, graphql, grpc, http, null_members, setup,
  setup_all, setup_circuit_breaker, setup_event_sourcing, setup_graphql, setup_grpc_server,
  setup_http_server, setup_sse_streaming, sse, tracing,
}
use http_web_framework.Microservice.Setup.Order.{IsOther, setup_all-user_service}

-- A router that keeps its routes, with a number as the handler.
abbrev number_routes : Registration ℕ (List (Entry ℕ))
number_routes = record {
  get = λ p h r. record { verb = HttpMethod.get; pattern = p; handler = h } ∷ r;
  post = λ p h r. record { verb = HttpMethod.post; pattern = p; handler = h } ∷ r;
  put = λ p h r. record { verb = HttpMethod.put; pattern = p; handler = h } ∷ r;
  delete_ = λ p h r. record { verb = HttpMethod.delete; pattern = p; handler = h } ∷ r;
}

-- A class whose first two methods can be called either way.
abbrev half_controller : Controller ℕ
half_controller = record {
  index = record { without_arguments = true; handler = some 1 };
  show = record { without_arguments = true; handler = some 2 };
  create = record { without_arguments = false; handler = some 3 };
  update = record { without_arguments = false; handler = none };
  destroy = record { without_arguments = false; handler = some 5 };
}

controller-entries_of_example :
    controller number_routes (codes "/users") half_controller []
    ≡ some (add_entries number_routes (entries_of (codes "/users") half_controller) [])
unfolding http_web_framework.Router.Controllers.HasBoth
controller-entries_of_example =
    controller-entries_of number_routes (codes "/users") half_controller [] (λ h. (1, refl))
      (λ h. (2, refl)) (λ h. ground arith) (λ h. ground arith) (λ h. ground arith)

get_attribute-set_attribute_example :
    let c : SseConnection = record { attributes = [] } in
    get_attribute int_type (codes "n") (set_attribute (codes "n") (int (pos 3)) c) ≡ (
      if same_text (codes "n") (codes "n")
      then (if holds_alternative int_type (int (pos 3)) then some (int (pos 3)) else none)
      else get_attribute int_type (codes "n") c)
get_attribute-set_attribute_example =
    get_attribute-set_attribute int_type (codes "n") (codes "n") (int (pos 3))
      (record { attributes = [] })

stats_json-join_example :
    stats_json (λ d. []) ((codes "a", int (pos 1)) ∷ (codes "b", str (codes "x")) ∷ [])
    ≡ codes "{"
      ++ (join
            (map (member (λ d. [])) ((codes "a", int (pos 1)) ∷ (codes "b", str (codes "x")) ∷ []))
          ++ codes "}")
stats_json-join_example =
    stats_json-join (λ d. []) ((codes "a", int (pos 1)) ∷ (codes "b", str (codes "x")) ∷ [])

two_stats :
    stats_json (λ d. []) ((codes "a", int (pos 1)) ∷ (codes "b", str (codes "x")) ∷ [])
    ≡ codes "{\"a\":1,\"b\":\"x\"}"
unfolding stats_json http_web_framework.Demo.Server.append_stats
    http_web_framework.Demo.Server.visit_value http_web_framework.Types.to_string_ℤ
    http_web_framework.Text.digits
two_stats = refl

-- The members behind the constructor of ModernMicroservice: the service has no breaker.
abbrev constructed : Members
constructed = record {
  http_server = some 5;
  router = some 6;
  grpc_server = some 8;
  sse_server = some 9;
  event_store = some 0;
  user_repository = some 1;
  user_service = some (record {
    repository = some 1;
    command_bus = some 2;
    event_bus = some 3;
    circuit_breaker = none;
  });
  circuit_breaker = some 4;
  objects = 10;
}

setups_construct : setup_all constructor_steps null_members ≡ some constructed
unfolding setup_all constructor_steps null_members setup setup_event_sourcing setup_circuit_breaker
    setup_http_server setup_graphql setup_grpc_server setup_sse_streaming
setups_construct = refl

setup_all-user_service_example :
    (m1 : Members) × (setup_all (tracing ∷ []) null_members ≡ some m1)
    × (Option.map (λ (s : UserService). s.circuit_breaker) constructed.user_service
        ≡ some m1.circuit_breaker)
unfolding constructor_steps IsOther
setup_all-user_service_example =
    setup_all-user_service (tracing ∷ []) (breaker ∷ http ∷ graphql ∷ grpc ∷ sse ∷ []) null_members
      constructed
      (
        (λ e. ground arith),
        (
          (λ e. ground arith),
          ((λ e. ground arith), ((λ e. ground arith), ((λ e. ground arith), tt))),
        ),
      )
      setups_construct

get-new_value_example :
    (GraphQl.get GraphQl.int_type (GraphQl.new_value (GraphQl.integral_arg (negsuc 4)))
      ≡ some (negsuc 4))
    × ((t : GraphQl.ValueType)
        → t ≢ GraphQl.int_type
        → GraphQl.get t (GraphQl.new_value (GraphQl.integral_arg (negsuc 4))) ≡ none)
unfolding type_of held
get-new_value_example = get-new_value (GraphQl.integral_arg (negsuc 4)) (omega arith)
