-- ===== src/EventSourcing/Repository.antt =====
-- The class Repository of include/patterns/event_sourcing.hpp, over an event store and an aggregate.
pub mod Commits
use http_web_framework.Prelude.{Bool, List, Option, [], if◌then◌else◌, none, some, ℕ, ◌∷◌}
use http_web_framework.Text.{Bytes}
use http_web_framework.Throwing.{Action, Void, modify, pure, returned, ◌>>=◌, ◌>>◌}
use http_web_framework.EventSourcing.{Event, ExpectedVersion, StreamSlice, WriteResult}

-- What the aggregate's class and the functions without a body provide, over the state of the store.
pub record Backend (S T : Type 0) : Type 0 where
  pub append_to_stream : Bytes → ExpectedVersion → List Event → Action S WriteResult
  pub read_stream_events_forward : Bytes → ℕ → ℕ → Action S StreamSlice
  pub build_aggregate_from_events : Bytes → List Event → Action S T
  pub try_load_from_snapshot : Bytes → Action S (Option T)
  pub maybe_save_snapshot : T → Action S Void
  pub get_stream_id : Bytes → Bytes
  pub id : T → Bytes
  pub get_uncommitted_events : T → List Event
  pub mark_events_as_committed : T → T

module _ {S T : Type 0} (backend : Backend S T) (snapshots_enabled : Bool) where
  open backend use {
    append_to_stream, read_stream_events_forward, build_aggregate_from_events,
    try_load_from_snapshot, maybe_save_snapshot, get_stream_id, id, get_uncommitted_events,
    mark_events_as_committed,
  }

  -- No events is no aggregate.
  unfoldable pub built_from : Bytes → List Event → Action S (Option T)
  built_from id' [] = pure none
  built_from id' (e ∷ events) = do
    built ← build_aggregate_from_events id' (e ∷ events)
    pure (some built)

  -- The stream's events from 0 on, 1000 at most.
  unfoldable pub load_events : Bytes → Action S (Option T)
  load_events id' = do
    stream_slice ← read_stream_events_forward (get_stream_id id') 0 1000
    built_from id' stream_slice.events

  unfoldable pub get_by_id : Bytes → Action S (Option T)
  get_by_id id' = do
    snapshot_result ← if snapshots_enabled then try_load_from_snapshot id' else pure none
    elim snapshot_result [ some t ↦ pure (some t) | none ↦ load_events id' ]

  -- The aggregate is passed by reference: it is part of the state.
  unfoldable pub on_store : {A : Type 0} → Action S A → Action (S × T) A
  on_store m (s, aggregate) = let (r, s') = m s in (r, (s', aggregate))

  -- Behind the write: the events are marked, and a snapshot is made if they are enabled.
  unfoldable pub after_append : T → Action (S × T) Void
  after_append aggregate =
      let snapshot : Action (S × T) Void =
        on_store (maybe_save_snapshot (mark_events_as_committed aggregate)) in
      do
        modify (λ (s', a). (s', mark_events_as_committed aggregate))
        if snapshots_enabled then snapshot else pure tt

  -- `save` behind the read of the uncommitted events.
  unfoldable pub commit_events : ExpectedVersion → List Event → Action (S × T) Void
  commit_events expected_version [] (s, aggregate) = (returned tt, (s, aggregate))
  commit_events expected_version (e ∷ events) (s, aggregate) =
      ◌>>◌
        (on_store (append_to_stream (get_stream_id (id aggregate)) expected_version (e ∷ events)))
        (after_append aggregate) (s, aggregate)

  unfoldable pub save : ExpectedVersion → Action (S × T) Void
  save expected_version (s, aggregate) =
      commit_events expected_version (get_uncommitted_events aggregate) (s, aggregate)
