-- ===== src/EventSourcing/Repository/Commits.antt =====
-- What save of include/patterns/event_sourcing.hpp leaves if the store throws.
use http_web_framework.Prelude.{Bool, List, [], arith, inl, inr, refl, ◌∷◌, ◌≡◌, ◌⊎◌}
use http_web_framework.Throwing.{Exception, returned, threw}
use http_web_framework.EventSourcing.{Event, ExpectedVersion}
use http_web_framework.EventSourcing.Repository.{Backend, commit_events, on_store, save}

module _ {S T : Type 0} (backend : Backend S T) where
  open backend use {
    append_to_stream, read_stream_events_forward, build_aggregate_from_events, get_stream_id, id,
    get_uncommitted_events, mark_events_as_committed,
  }

  commit_failed :
      (enabled : Bool) (v : ExpectedVersion) (events : List Event) (a : T) (x : Exception)
      (s s' : S)
      → append_to_stream (get_stream_id (id a)) v events s ≡ (threw x, s')
      → (commit_events backend enabled v events (s, a) ≡ (threw x, (s', a)))
        ⊎ ((events ≡ []) × (commit_events backend enabled v events (s, a) ≡ (returned tt, (s, a))))
  unfolding commit_events on_store
  commit_failed enabled v [] a x s s' h = inr (refl, refl)
  commit_failed enabled v (e ∷ events) a x s s' h = inl (ground arith)

  -- A store that throws leaves the aggregate as it was: its events are still uncommitted, and another
  -- save will try them again. An aggregate without new events is saved without a call of the store.
  pub save_failed :
      (enabled : Bool) (v : ExpectedVersion) (a : T) (x : Exception) (s s' : S)
      → append_to_stream (get_stream_id (id a)) v (get_uncommitted_events a) s ≡ (threw x, s')
      → (save backend enabled v (s, a) ≡ (threw x, (s', a)))
        ⊎ ((get_uncommitted_events a ≡ [])
            × (save backend enabled v (s, a) ≡ (returned tt, (s, a))))
  unfolding save
  save_failed enabled v a x s s' h = commit_failed enabled v (get_uncommitted_events a) a x s s' h
