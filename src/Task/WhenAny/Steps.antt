-- ===== src/Task/WhenAny/Steps.antt =====
-- How many steps the threads of `Task::when_any_impl` of include/async/task.hpp still have.
use mathlib.Core.Path.{subst}
use http_web_framework.Prelude.{
  ==_iff, Bool-cases, List, [], ap, arith, if◌then◌else◌, inl, inr, length, map, refl, suc, zero, ℕ,
  ◌-◌, ◌==◌, ◌∙◌, ◌∷◌, ◌≡◌, ◌≢◌, ◌≤◌,
}
use http_web_framework.Throwing.{Result}
use http_web_framework.Task.WhenAny.{
  Awaiter, Thread, advance, arrived, await_suspend, ended, getting, resuming, run, step, storing,
}

-- How often the thread `i` takes a step.
unfoldable pub occurrences : ℕ → List ℕ → ℕ
occurrences i [] = 0
occurrences i (j ∷ schedule) =
    let rest = occurrences i schedule in if j == i then suc rest else rest

module _ {V : Type 0} where
  -- How many steps a thread still has.
  unfoldable pub remaining : Thread V → ℕ
  remaining (getting o) = 4
  remaining (arrived o) = 3
  remaining (storing o) = 2
  remaining resuming = 1
  remaining ended = 0

  unfoldable pub remaining_at : ℕ → List (Thread V) → ℕ
  remaining_at i [] = 0
  remaining_at zero (t ∷ ts) = remaining t
  remaining_at (suc i) (t ∷ ts) = remaining_at i ts

  remaining-advance : (t : Thread V) (a : Awaiter V) → remaining (advance t a).0 ≤ remaining t - 1
  unfolding remaining advance
  remaining-advance (getting o) a = omega arith
  remaining-advance (arrived o) a = ground arith
  remaining-advance (storing o) a = omega arith
  remaining-advance resuming a = omega arith
  remaining-advance ended a = omega arith

  pub step_same :
      (i : ℕ) (ts : List (Thread V)) (a : Awaiter V)
      → remaining_at i (step i ts a).0 ≤ remaining_at i ts - 1
  unfolding remaining_at step
  step_same i [] a = omega arith
  step_same zero (t ∷ ts) a = remaining-advance t a
  step_same (suc i) (t ∷ ts) a = step_same i ts a

  pub step_other :
      (i j : ℕ) (ts : List (Thread V)) (a : Awaiter V)
      → i ≢ j
      → remaining_at j (step i ts a).0 ≡ remaining_at j ts
  unfolding remaining_at step
  step_other i j [] a h = refl
  step_other zero zero (t ∷ ts) a h = absurd (h refl)
  step_other zero (suc j) (t ∷ ts) a h = refl
  step_other (suc i) zero (t ∷ ts) a h = refl
  step_other (suc i) (suc j) (t ∷ ts) a h = step_other i j ts a (λ e. h (ap suc e))

  pub remaining-run :
      (j : ℕ) (schedule : List ℕ) (ts : List (Thread V)) (a : Awaiter V)
      → remaining_at j (run schedule ts a).0 ≤ remaining_at j ts - occurrences j schedule
  unfolding run occurrences
  remaining-run j [] ts a = omega arith
  remaining-run j (i ∷ schedule) ts a =
      let rest = remaining-run j schedule (step i ts a).0 (step i ts a).1 in
      elim (Bool-cases (i == j)) [
        | inl y ↦
            let e : i ≡ j = (==_iff i j).0 y in
            let s =
              subst (λ k. remaining_at k (step i ts a).0 ≤ remaining_at k ts - 1) e
                (step_same i ts a) in
            rw y (omega (arith, rest, s))
        | inr n ↦ let s = step_other i j ts a (λ e. ground arith) in rw n (omega (arith, rest, s))
      ]

  length-step : (i : ℕ) (ts : List (Thread V)) (a : Awaiter V) → length (step i ts a).0 ≡ length ts
  unfolding step
  length-step i [] a = refl
  length-step zero (t ∷ ts) a = refl
  length-step (suc i) (t ∷ ts) a = ap suc (length-step i ts a)

  pub length-run :
      (schedule : List ℕ) (ts : List (Thread V)) (a : Awaiter V)
      → length (run schedule ts a).0 ≡ length ts
  unfolding run
  length-run [] ts a = refl
  length-run (i ∷ schedule) ts a =
      length-run schedule (step i ts a).0 (step i ts a).1 ∙ length-step i ts a

  pub length-await_suspend :
      (outcomes : List (Result V)) → length (await_suspend outcomes) ≡ length outcomes
  unfolding await_suspend
  length-await_suspend [] = refl
  length-await_suspend (o ∷ outcomes) = ap suc (length-await_suspend outcomes)

  pub remaining-getting :
      (outcomes : List (Result V)) (i : ℕ)
      → (remaining_at i (map getting outcomes) ≤ 4)
        × (length outcomes ≤ i → remaining_at i (map getting outcomes) ≡ 0)
  unfolding remaining_at remaining
  remaining-getting [] i = (omega arith, λ h. refl)
  remaining-getting (o ∷ outcomes) zero = (omega arith, λ h. absurd (omega arith))
  remaining-getting (o ∷ outcomes) (suc i) =
      let (b, z) = remaining-getting outcomes i in (b, λ h. z (omega arith))
