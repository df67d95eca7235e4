-- ===== src/Sse/Attributes.antt =====
-- What the attributes of a connection of include/streaming/sse.hpp hold.
use http_web_framework.Prelude.{arith, if◌then◌else◌, none, some, ◌≡◌}
use http_web_framework.Text.{Bytes, same_text}
use http_web_framework.Types.{Attribute, AttributeType, holds_alternative}
use http_web_framework.Fields.{lookup-insert}
use http_web_framework.Sse.{SseConnection, get_attribute, set_attribute}

-- Behind `set_attribute` the name has the value, for the type that the value has and for no other,
-- and every other name is read as before.
pub get_attribute-set_attribute :
    (t : AttributeType) (m n : Bytes) (value : Attribute) (c : SseConnection)
    → get_attribute t m (set_attribute n value c) ≡ (
        if same_text n m
        then (if holds_alternative t value then some value else none)
        else get_attribute t m c)
unfolding get_attribute set_attribute
get_attribute-set_attribute t m n value c = ground (arith, lookup-insert n m value c.attributes)
