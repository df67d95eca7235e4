-- ===== src/EventSourcing/Buses.antt =====
-- CommandBus::register_handler and EventBus::subscribe of include/patterns/event_sourcing.hpp:
-- the functions they put into the tables of handlers.
use http_web_framework.Prelude.{
  List, Option, [], append-nil, append_assoc, arith, if◌then◌else◌, none, some, sym, ◌++◌, ◌∷◌, ◌≡◌,
}
use http_web_framework.Fields.{HashMap, insert, lookup, lookup-insert}
use http_web_framework.EventSourcing.{Event, get_data}
use http_web_framework.Text.{Bytes, same_text, same_text_iff}
use http_web_framework.Throwing.{Action, Void, pure, ◌>>=◌}

-- A function of the table of commands; its result type `variant<>` has no value to carry.
abbrev pub CommandEntry : Type 0 → Type 0
CommandEntry S = Bytes → Action S Void

-- The lambda of register_handler: the aggregate is always absent, and the handler's result is dropped.
unfoldable pub command_entry :
    {S C R T : Type 0} → (Bytes → Option C) → (C → Option T → Action S R) → CommandEntry S
command_entry deserialize handler serialized_command = elim (deserialize serialized_command) [
  | none ↦ pure tt
  | some command ↦ do _ ← handler command none; pure tt
]

-- CommandBus::register_handler, of a command class with this type name.
unfoldable pub register_handler :
    {S C R T : Type 0}
    → Bytes
    → (Bytes → Option C)
    → (C → Option T → Action S R)
    → HashMap (CommandEntry S)
    → HashMap (CommandEntry S)
register_handler command_type deserialize handler handlers =
    insert command_type (command_entry deserialize handler) handlers

-- A function of the table of events.
abbrev pub EventEntry : Type 0 → Type 0
EventEntry S = Event → Action S Void

-- The lambda of subscribe: an event that is not of the type is passed over.
unfoldable pub event_entry :
    {S T : Type 0} → (Bytes → Option T) → (T → Action S Void) → EventEntry S
event_entry deserialize handler event = elim (get_data deserialize event) [
  | none ↦ pure tt
  | some event_data ↦ handler event_data
]

-- `handlers_[event_type]`, which has no handlers for a type that is new.
unfoldable pub handlers_of :
    {S : Type 0} → Bytes → HashMap (List (EventEntry S)) → List (EventEntry S)
handlers_of event_type' handlers = elim (lookup event_type' handlers) [
  | none ↦ []
  | some entries ↦ entries
]

-- EventBus::subscribe, of an event class with this type name.
unfoldable pub subscribe :
    {S T : Type 0}
    → Bytes
    → (Bytes → Option T)
    → (T → Action S Void)
    → HashMap (List (EventEntry S))
    → HashMap (List (EventEntry S))
subscribe event_type' deserialize handler handlers =
    insert event_type' (handlers_of event_type' handlers ++ (event_entry deserialize handler ∷ []))
      handlers

-- A subscription: the type's name, its reader, and the handler.
abbrev pub Subscription : Type 0 → Type 0 → Type 0
Subscription S T = Bytes × (Bytes → Option T) × (T → Action S Void)

module _ {S T : Type 0} where
  pub entries_for : Bytes → List (Subscription S T) → List (EventEntry S)
  entries_for k [] = []
  entries_for k ((event_type', deserialize, handler) ∷ subs) =
      let rest = entries_for k subs in
      if same_text event_type' k then event_entry deserialize handler ∷ rest else rest

  pub subscribe_all :
      List (Subscription S T) → HashMap (List (EventEntry S)) → HashMap (List (EventEntry S))
  subscribe_all [] handlers = handlers
  subscribe_all ((event_type', deserialize, handler) ∷ subs) handlers =
      subscribe_all subs (subscribe event_type' deserialize handler handlers)

  handlers_of-subscribe :
      (k event_type' : Bytes) (deserialize : Bytes → Option T) (handler : T → Action S Void)
      (handlers : HashMap (List (EventEntry S)))
      → handlers_of k (subscribe event_type' deserialize handler handlers) ≡ (
          if same_text event_type' k
          then handlers_of k handlers ++ (event_entry deserialize handler ∷ [])
          else handlers_of k handlers)
  unfolding handlers_of subscribe
  handlers_of-subscribe k event_type' deserialize handler handlers = ground (
    arith,
    lookup-insert event_type' k
        (handlers_of event_type' handlers ++ (event_entry deserialize handler ∷ [])) handlers,
    same_text_iff event_type' k,
  )

  -- After any subscriptions, in their order, a type has the handlers that it had and, behind them,
  -- those that were subscribed for it, the first one first.
  pub handlers_of-subscribe_all :
      (k : Bytes) (subs : List (Subscription S T)) (handlers : HashMap (List (EventEntry S)))
      → handlers_of k (subscribe_all subs handlers) ≡ handlers_of k handlers ++ entries_for k subs
  unfolding subscribe_all entries_for
  handlers_of-subscribe_all k [] handlers = sym (append-nil (handlers_of k handlers))
  handlers_of-subscribe_all k ((event_type', deserialize, handler) ∷ subs) handlers = ground (
    arith,
    handlers_of-subscribe_all k subs (subscribe event_type' deserialize handler handlers),
    handlers_of-subscribe k event_type' deserialize handler handlers,
    append_assoc (handlers_of k handlers) (event_entry deserialize handler ∷ [])
        (entries_for k subs),
  )
