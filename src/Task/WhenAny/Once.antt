-- ===== src/Task/WhenAny/Once.antt =====
-- How often, and with what, `Task::when_any_impl` of include/async/task.hpp resumes the coroutine, and
-- which threads still need what the first resume destroys.
use mathlib.Core.List
use http_web_framework.Prelude.{
  Bool-cases, List, [], ap, arith, false, get_elem?, inl, inr, none, refl, some, suc, true, zero, ℕ,
  ◌&&◌, ◌++◌, ◌∷◌, ◌≡◌, ◌⊎◌,
}
use http_web_framework.Throwing.{Result}
use http_web_framework.Task.WhenAny.{
  Awaiter, Thread, arrived, await_suspend, ended, getting, is_active_at, is_destroyed, new_awaiter,
  resuming, run, run_threads, step, storing, when_any_impl,
}
use http_web_framework.Task.WhenAny.Phases.{
  Inv, IsOutcome, Phase, answered_phase, holder, open_phase, resuming_phase, storing_phase,
}
use http_web_framework.Task.WhenAny.Kept.{reached-Inv}

module _ {V : Type 0} where
  -- What the coroutine was resumed with is nothing yet, or one outcome of one of the tasks.
  unfoldable pub IsResumedOnce : List (Result V) → List (Result V) → Type 0
  IsResumedOnce outcomes resumed =
      (resumed ≡ []) ⊎ ((o : Result V) × IsOutcome outcomes o × (resumed ≡ o ∷ []))

  -- The steps of a schedule are all defined, or they are up to one that a thread takes when the awaiter
  -- is destroyed.
  run_threads-cases :
      (schedule : List ℕ) (ts : List (Thread V)) (a : Awaiter V)
      → (run_threads schedule ts a ≡ some (run schedule ts a))
        ⊎ ((early late : List ℕ) × (i : ℕ) × (schedule ≡ early ++ i ∷ late)
            × (run_threads schedule ts a ≡ none)
            × (run_threads early ts a ≡ some (run early ts a))
            × (is_destroyed (run early ts a).1 ≡ true)
            × (is_active_at i (run early ts a).0 ≡ true))
  unfolding run_threads run
  run_threads-cases [] ts a = inl refl
  run_threads-cases (i ∷ schedule) ts a = elim (Bool-cases (is_destroyed a && is_active_at i ts)) [
    | inl y ↦
        let d : is_destroyed a ≡ true = ground arith in
        let t : is_active_at i ts ≡ true = ground arith in
        inr ([], schedule, i, refl, rw y refl, refl, d, t)
    | inr n ↦ elim (run_threads-cases schedule (step i ts a).0 (step i ts a).1) [
      | inl e ↦ inl (rw n e)
      | inr (early, late, j, e, u, r, d, t) ↦
          inr (i ∷ early, late, j, ap (λ l. i ∷ l) e, rw n u, rw n r, d, t)
    ]
  ]

  pub destroyed_answer :
      (outcomes : List (Result V)) (ts : List (Thread V)) (a : Awaiter V)
      → Phase outcomes ts a
      → is_destroyed a ≡ true
      → (o : Result V) × IsOutcome outcomes o
        × (a.resumptions ≡ o ∷ [])
        × (List.flat_map holder ts ≡ [])
  unfolding is_destroyed
  destroyed_answer outcomes ts a (open_phase c e r w) d = ground arith
  destroyed_answer outcomes ts a (storing_phase o i c e r w) d = ground arith
  destroyed_answer outcomes ts a (resuming_phase o i c e r w) d = ground arith
  destroyed_answer outcomes ts a (answered_phase o i c r w) d = (o, i, r, w)

  resumed_once :
      (outcomes : List (Result V)) (ts : List (Thread V)) (a : Awaiter V)
      → Phase outcomes ts a
      → IsResumedOnce outcomes a.resumptions
  unfolding IsResumedOnce
  resumed_once outcomes ts a (open_phase c e r w) = inl r
  resumed_once outcomes ts a (storing_phase o i c e r w) = inl r
  resumed_once outcomes ts a (resuming_phase o i c e r w) = inl r
  resumed_once outcomes ts a (answered_phase o i c r w) = inr (o, i, r)

  -- A thread that waits for its task, or has not been at `exchange`.
  unfoldable pub IsBeforeExchange : Thread V → Type 0
  IsBeforeExchange t = (o : Result V) × ((t ≡ getting o) ⊎ (t ≡ arrived o))

  active_before :
      (i : ℕ) (ts : List (Thread V))
      → is_active_at i ts ≡ true
      → List.flat_map holder ts ≡ []
      → (t : Thread V) × (get_elem? ts i ≡ some t) × IsBeforeExchange t
  unfolding is_active_at holder List.flat_map IsBeforeExchange
  active_before i [] h w = ground arith
  active_before zero (getting o ∷ ts) h w = (getting o, refl, (o, inl refl))
  active_before zero (arrived o ∷ ts) h w = (arrived o, refl, (o, inr refl))
  active_before i (storing o ∷ ts) h w = ground arith
  active_before i (resuming ∷ ts) h w = ground arith
  active_before zero (ended ∷ ts) h w = ground arith
  active_before (suc i) (getting o ∷ ts) h w = active_before i ts h w
  active_before (suc i) (arrived o ∷ ts) h w = active_before i ts h w
  active_before (suc i) (ended ∷ ts) h w = active_before i ts h w

  -- If no task was ready at the start, then in whatever order the threads take their steps, and however
  -- far they are, either all steps are defined and the coroutine has been resumed at most once, and
  -- then with the value or the exception of one of the tasks; or some thread takes a step when the
  -- awaiter is destroyed, which is undefined. Up to there the coroutine has been resumed exactly once,
  -- with the value or the exception of one of the tasks, and the thread is one that has not been at
  -- `exchange`: no thread stores its outcome, or resumes the coroutine, behind the one that did.
  pub when_any_impl-IsResumedOnce :
      (outcomes : List (Result V)) (value : V) (schedule : List ℕ)
      → ((resumed : List (Result V)) × (when_any_impl false value outcomes schedule ≡ some resumed)
          × IsResumedOnce outcomes resumed)
        ⊎ ((early late : List ℕ) × (i : ℕ) × (schedule ≡ early ++ i ∷ late)
            × (when_any_impl false value outcomes schedule ≡ none)
            × ((o : Result V) × IsOutcome outcomes o
                × (when_any_impl false value outcomes early ≡ some (o ∷ [])))
            × ((t : Thread V) × (get_elem?
                    (run early (await_suspend outcomes) (new_awaiter value)).0
                    i
                  ≡ some t)
                × IsBeforeExchange t))
  unfolding when_any_impl Inv
  when_any_impl-IsResumedOnce outcomes value schedule =
      let ts = await_suspend outcomes in
      let a = new_awaiter value in
      elim (run_threads-cases schedule ts a) [
        | inl e ↦ inl (
          (run schedule ts a).1.resumptions,
          rw (when_any_impl, e) refl,
          resumed_once outcomes _ _ (reached-Inv outcomes value schedule).1,
        )
        | inr (early, late, i, e, u, r, d, active) ↦
            let (o, is, answer, w) =
              destroyed_answer outcomes _ _ (reached-Inv outcomes value early).1 d in
            inr (
              early,
              late,
              i,
              e,
              rw (when_any_impl, u) refl,
              (o, is, rw (when_any_impl, r) (ap some answer)),
              active_before i (run early ts a).0 active w,
            )
      ]
