-- ===== src/Sse.antt =====
-- include/streaming/sse.hpp: the data of an event, the functions that build one, and the attributes
-- of a connection that events are sent on.
pub mod Attributes
use http_web_framework.Prelude.{Option, [], if◌then◌else◌, none, some, ℕ}
use http_web_framework.Text.{Bytes, codes}
use http_web_framework.Types.{Attribute, AttributeType, holds_alternative}
use http_web_framework.Fields.{HashMap, insert, lookup}

pub record EventData : Type 0 where
  pub id : Option Bytes
  pub event : Option Bytes
  pub payload : Bytes
  pub retry : Option ℕ
  pub custom_fields : HashMap Bytes

-- `EventData(e, d)`
unfoldable pub event_data : Bytes → Bytes → EventData
event_data e d = record { id = none; event = some e; payload = d; retry = none; custom_fields = [] }

-- `event_type.value_or(other)`
unfoldable pub value_or : Bytes → Option Bytes → Bytes
value_or other none = other
value_or other (some v) = v

unfoldable pub json_event : Bytes → Option Bytes → EventData
json_event json_data event_type = event_data (value_or (codes "json") event_type) json_data

unfoldable pub text_event : Bytes → Option Bytes → EventData
text_event text_data event_type = event_data (value_or (codes "message") event_type) text_data

unfoldable pub heartbeat_event : EventData
heartbeat_event = event_data (codes "heartbeat") (codes "ping")

unfoldable pub error_event : Bytes → EventData
error_event error_message = event_data (codes "error") error_message

-- The data is left out.
unfoldable pub structured_event : {T : Type 0} → T → Bytes → EventData
structured_event value event_type = event_data event_type []

-- SseConnection, as far as its attributes go.
pub record SseConnection : Type 0 where
  pub attributes : HashMap Attribute

unfoldable pub set_attribute : Bytes → Attribute → SseConnection → SseConnection
set_attribute name value connection = record connection {
  attributes = insert name value connection.attributes;
}

unfoldable pub get_attribute : AttributeType → Bytes → SseConnection → Option Attribute
get_attribute t name connection = elim (lookup name connection.attributes) [
  | none ↦ none
  | some a ↦ if holds_alternative t a then some a else none
]
