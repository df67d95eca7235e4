-- ===== src/Microservice/User.antt =====
-- The class User of examples/modern_microservice.cpp, an aggregate that keeps the events that are not
-- committed yet.
use http_web_framework.Prelude.{
  List, [], if◌then◌else◌, none, not, some, ℕ, ◌%◌, ◌++◌, ◌+◌, ◌^◌, ◌∷◌,
}
use http_web_framework.Text.{Bytes, codes, empty, same_text, to_string}
use http_web_framework.Throwing.{Action, Void, returned, runtime_error, threw}
use http_web_framework.EventSourcing.{Event, get_data, new_event, new_metadata}
use http_web_framework.Microservice.{UserCreatedEvent, deserialize, serialize}

pub record User : Type 0 where
  pub user_id : Bytes
  pub email : Bytes
  pub name : Bytes
  pub created_at : ℕ
  pub version : ℕ
  pub uncommitted_events : List Event

-- `User(user_id)`
unfoldable pub new_user : Bytes → User
new_user user_id' = record {
  user_id = user_id';
  email = [];
  name = [];
  created_at = 0;
  version = 0;
  uncommitted_events = [];
}

unfoldable pub apply_event : Event → User → User
apply_event event u =
    if same_text event.metadata.event_type (codes "UserCreated")
    then elim (get_data deserialize event) [
      | none ↦ u
      | some user_event ↦ record u {
        user_id = user_event.user_id;
        email = user_event.email;
        name = user_event.name;
        created_at = user_event.created_at;
        version = (u.version + 1) % 2 ^ 64;
      }
    ]
    else u

unfoldable pub mark_events_as_committed : User → User
mark_events_as_committed u = record u { uncommitted_events = [] }

-- `generate_event_id()`, over its counter.
unfoldable pub generate_event_id : ℕ → Bytes × ℕ
generate_event_id counter =
    let next = (counter + 1) % 2 ^ 64 in (codes "event_" ++ to_string next, next)

-- `apply_and_record` at time `now`, over the counter of events and the user.
unfoldable pub apply_and_record : ℕ → UserCreatedEvent → Action (ℕ × User) Void
apply_and_record now event_data (counter, u) =
    let (event_id', next) = generate_event_id counter in
    let metadata' =
      new_metadata event_id' (codes "UserCreated") (codes "user-" ++ u.user_id)
        ((u.version + 1) % 2 ^ 64) now in
    let event = new_event serialize event_data metadata' in
    let applied = apply_event event u in
    (
      returned tt,
      (next, record applied { uncommitted_events = applied.uncommitted_events ++ (event ∷ []) }),
    )

unfoldable pub create_user : ℕ → Bytes → Bytes → Action (ℕ × User) Void
create_user now email' name' (counter, u) =
    let event : UserCreatedEvent = record {
      user_id = u.user_id;
      email = email';
      name = name';
      created_at = now;
    } in
    if not (empty u.user_id)
    then (threw (runtime_error (codes "User already exists")), (counter, u))
    else apply_and_record now event (counter, u)
