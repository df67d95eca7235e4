-- ===== src/EventSourcing/ReadModel.antt =====
-- The class InMemoryReadModel of include/patterns/event_sourcing.hpp. Its reset is left out: it is
-- declared to return a task and returns nothing, which C++ leaves undefined.
use http_web_framework.Prelude.{List, Option, map}
use http_web_framework.Text.{Bytes}
use http_web_framework.Fields.{HashMap, erase, insert, lookup}

module _ {T : Type 0} where
  unfoldable pub add_item : Bytes → T → HashMap T → HashMap T
  add_item key item entries = insert key item entries

  unfoldable pub remove_item : Bytes → HashMap T → HashMap T
  remove_item key entries = erase key entries

  unfoldable pub get_item : Bytes → HashMap T → Option T
  get_item key entries = lookup key entries

  -- In the order of the map.
  unfoldable pub get_all : HashMap T → List T
  get_all entries = map (λ (e : Bytes × T). e.1) entries
