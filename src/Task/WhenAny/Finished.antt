-- ===== src/Task/WhenAny/Finished.antt =====
-- That `Task::when_any_impl` of include/async/task.hpp comes to its end: each thread has four steps,
-- and once all threads have taken theirs the coroutine has been resumed, if none of them needed what
-- the first resume destroyed.
use mathlib.Core.List
use http_web_framework.Prelude.{
  Bool-cases, List, [], ap, arith, false, inl, inr, length, ltb, ltb→lt, map, refl, some, suc, ℕ,
  ◌++◌, ◌<◌, ◌∷◌, ◌≡◌, ◌≢◌, ◌≤◌,
}
use http_web_framework.Throwing.{Result}
use http_web_framework.Task.WhenAny.{
  Awaiter, Thread, arrived, await_suspend, ended, getting, new_awaiter, resuming, run, storing,
  when_any_impl,
}
use http_web_framework.Task.WhenAny.Phases.{
  Inv, IsOutcome, answered_phase, holder, open_phase, past, resuming_phase, storing_phase,
}
use http_web_framework.Task.WhenAny.Kept.{reached-Inv}
use http_web_framework.Task.WhenAny.Steps.{
  length-await_suspend, length-run, occurrences, remaining, remaining-getting, remaining-run,
  remaining_at,
}
use http_web_framework.Task.WhenAny.Undisturbed.{IsGathered, gathered_run}

module _ {V : Type 0} where
  -- Threads that have no steps left are behind their functions.
  ended_holder :
      (ts : List (Thread V)) → ((i : ℕ) → remaining_at i ts ≡ 0) → List.flat_map holder ts ≡ []
  unfolding remaining_at remaining holder List.flat_map
  ended_holder [] h = refl
  ended_holder (getting o ∷ ts) h = let z = h 0 in ground arith
  ended_holder (arrived o ∷ ts) h = let z = h 0 in ground arith
  ended_holder (storing o ∷ ts) h = let z = h 0 in ground arith
  ended_holder (resuming ∷ ts) h = let z = h 0 in ground arith
  ended_holder (ended ∷ ts) h = ended_holder ts (λ i. h (suc i))

  ended_past :
      (ts : List (Thread V))
      → ((i : ℕ) → remaining_at i ts ≡ 0)
      → 0 < length ts
      → List.flat_map past ts ≢ []
  unfolding remaining_at remaining past List.flat_map
  ended_past [] h b w = absurd (omega arith)
  ended_past (getting o ∷ ts) h b w = let z = h 0 in ground arith
  ended_past (arrived o ∷ ts) h b w = let z = h 0 in ground arith
  ended_past (storing o ∷ ts) h b w = let z = h 0 in ground arith
  ended_past (resuming ∷ ts) h b w = let z = h 0 in ground arith
  ended_past (ended ∷ ts) h b w = ground arith

  -- Each task has at least four steps in the schedule.
  unfoldable pub IsFair : List (Result V) → List ℕ → Type 0
  IsFair outcomes schedule = (i : ℕ) → i < length outcomes → 4 ≤ occurrences i schedule

  nothing_left :
      (outcomes : List (Result V)) (schedule : List ℕ) (a : Awaiter V)
      → IsFair outcomes schedule
      → (i : ℕ) → remaining_at i (run schedule (await_suspend outcomes) a).0 ≡ 0
  unfolding IsFair await_suspend
  nothing_left outcomes schedule a fair i =
      let left = remaining-run i schedule (map getting outcomes) a in
      let (b, z) = remaining-getting outcomes i in
      elim (Bool-cases (ltb i (length outcomes))) [
        | inl y ↦ omega (arith, left, b, fair i (ltb→lt i (length outcomes) y))
        | inr n ↦ let zero_left = z (ground arith) in omega (arith, left, zero_left)
      ]

  all_ended :
      (outcomes : List (Result V)) (value : V) (schedule : List ℕ)
      → 0 < length outcomes
      → IsFair outcomes schedule
      → (o : Result V) × IsOutcome outcomes o
        × ((run schedule (await_suspend outcomes) (new_awaiter value)).1.resumptions ≡ o ∷ [])
  unfolding Inv
  all_ended outcomes value schedule some_task fair =
      let s = run schedule (await_suspend outcomes) (new_awaiter value) in
      let left = nothing_left outcomes schedule (new_awaiter value) fair in
      let free = ended_holder s.0 left in
      let some_length : 0 < length s.0 =
        rw
          (
            length-run schedule (await_suspend outcomes) (new_awaiter value),
            length-await_suspend outcomes,
          )
          some_task in
      elim (reached-Inv outcomes value schedule).1 [
        | open_phase c e r w ↦ absurd (ended_past s.0 left some_length w)
        | storing_phase o i c e r w ↦ ground arith
        | resuming_phase o i c e r w ↦ ground arith
        | answered_phase o i c r w ↦ (o, i, r)
      ]

  -- If no task was ready at the start, there is at least one, and the schedule has a first part in
  -- which every thread takes two or three steps, so that all are past `exchange` before one resumes the
  -- coroutine, then no thread needs what is destroyed; and once each thread has taken its four steps,
  -- in whatever order they came, the coroutine has been resumed exactly once, with the value or the
  -- exception of one of the tasks.
  pub when_any_impl_resumed :
      (outcomes : List (Result V)) (value : V) (early late : List ℕ)
      → 0 < length outcomes
      → IsGathered outcomes early
      → IsFair outcomes (early ++ late)
      → (o : Result V) × IsOutcome outcomes o
        × (when_any_impl false value outcomes (early ++ late) ≡ some (o ∷ []))
  unfolding when_any_impl
  when_any_impl_resumed outcomes value early late some_task gathered fair =
      let (o, is, answer) = all_ended outcomes value (early ++ late) some_task fair in
      (o, is, rw (when_any_impl, gathered_run outcomes value early late gathered) (ap some answer))
