-- ===== src/EventSourcing.antt =====
-- include/patterns/event_sourcing.hpp: events and their comparisons, the read model in memory
-- (ReadModel), the repository over an event store (Repository), and the registration of handlers
-- (Buses). The event store and the serializers are parameters: they have no body in the repository.
pub mod ReadModel
pub mod Repository
pub mod Buses
use http_web_framework.Prelude.{Bool, List, Option, [], if◌then◌else◌, not, ℕ, ◌∷◌}
use http_web_framework.Text.{Bytes, same_text}
use http_web_framework.Fields.{HashMap}
use Prim.Native.Nat.{compare, Ordering}

pub record EventMetadata : Type 0 where
  pub event_id : Bytes
  pub event_type : Bytes
  pub stream_id : Bytes
  pub stream_version : ℕ
  pub occurred_at : ℕ
  pub correlation_id : Bytes
  pub causation_id : Bytes
  pub custom_metadata : HashMap Bytes

-- `EventMetadata(id, type, sid, version)` at time `now`.
unfoldable pub new_metadata : Bytes → Bytes → Bytes → ℕ → ℕ → EventMetadata
new_metadata id event_type' sid version now = record {
  event_id = id;
  event_type = event_type';
  stream_id = sid;
  stream_version = version;
  occurred_at = now;
  correlation_id = [];
  causation_id = [];
  custom_metadata = [];
}

-- The member data_ is the serialized form.
pub record Event : Type 0 where
  pub metadata : EventMetadata
  pub payload : Bytes

-- `Event(data, metadata)`
unfoldable pub new_event : {T : Type 0} → (T → Bytes) → T → EventMetadata → Event
new_event serialize data' m = record { metadata = m; payload = serialize data' }

unfoldable pub get_data : {T : Type 0} → (Bytes → Option T) → Event → Option T
get_data deserialize e = deserialize e.payload

-- `operator<=>` of std::string: by the first byte that differs, a prefix first.
unfoldable pub compare_text : Bytes → Bytes → Ordering
compare_text [] [] = Ordering.eq
compare_text [] (y ∷ t) = Ordering.lt
compare_text (x ∷ s) [] = Ordering.gt
compare_text (x ∷ s) (y ∷ t) =
    let rest = compare_text s t in
    elim (compare x y) [
      | Ordering.lt ↦ Ordering.lt
      | Ordering.gt ↦ Ordering.gt
      | Ordering.eq ↦ rest
    ]

-- `operator<=>`
unfoldable pub compare_events : Event → Event → Ordering
compare_events a b =
    if not (same_text a.metadata.stream_id b.metadata.stream_id)
    then compare_text a.metadata.stream_id b.metadata.stream_id
    else compare a.metadata.stream_version b.metadata.stream_version

-- `operator==`
unfoldable pub same_event : Event → Event → Bool
same_event a b = same_text a.metadata.event_id b.metadata.event_id

-- `ExpectedVersion`, and versions that are numbers.
pub data ExpectedVersion : Type 0 where
  any no_stream empty_stream : ExpectedVersion

pub record StreamSlice : Type 0 where
  pub stream_id : Bytes
  pub from_version : ℕ
  pub to_version : ℕ
  pub events : List Event
  pub is_end_of_stream : Bool

pub record WriteResult : Type 0 where
  pub stream_id : Bytes
  pub next_expected_version : ℕ
  pub written_event_ids : List Bytes
