-- ===== src/Task/WhenAny/Early.antt =====
-- That no thread of `Task::when_any_impl` of include/async/task.hpp resumes the coroutine before its
-- fourth step, so that the awaiter lives until then.
use mathlib.Core.Path.{subst}
use http_web_framework.Prelude.{
  ==_iff, Bool-cases, List, [], ap, arith, false, inl, inr, map, refl, some, suc, true, zero, ℕ,
  ◌+◌, ◌==◌, ◌∙◌, ◌∷◌, ◌≡◌, ◌≢◌, ◌≤◌,
}
use http_web_framework.Throwing.{Result, returned, threw}
use http_web_framework.Task.WhenAny.{
  Awaiter, Thread, advance, arrived, ended, getting, is_destroyed, resuming, run, run_threads, step,
  store, storing,
}
use http_web_framework.Task.WhenAny.Steps.{occurrences}

taken : (i : ℕ) (schedule : List ℕ) → occurrences i (i ∷ schedule) ≡ suc (occurrences i schedule)
unfolding occurrences
taken i schedule = let e : (i == i) ≡ true = (==_iff i i).1 refl in rw e refl

module _ {V : Type 0} where
  -- How many steps a thread has taken, if it has not ended.
  unfoldable pub rank : Thread V → ℕ
  rank (getting o) = 0
  rank (arrived o) = 1
  rank (storing o) = 2
  rank resuming = 3
  rank ended = 0

  unfoldable pub rank_at : ℕ → List (Thread V) → ℕ
  rank_at i [] = 0
  rank_at zero (t ∷ ts) = rank t
  rank_at (suc i) (t ∷ ts) = rank_at i ts

  rank-advance : (t : Thread V) (a : Awaiter V) → rank (advance t a).0 ≤ suc (rank t)
  unfolding rank advance
  rank-advance (getting o) a = omega arith
  rank-advance (arrived o) a = ground arith
  rank-advance (storing o) a = omega arith
  rank-advance resuming a = omega arith
  rank-advance ended a = omega arith

  rank_same :
      (i : ℕ) (ts : List (Thread V)) (a : Awaiter V)
      → rank_at i (step i ts a).0 ≤ suc (rank_at i ts)
  unfolding rank_at step
  rank_same i [] a = omega arith
  rank_same zero (t ∷ ts) a = rank-advance t a
  rank_same (suc i) (t ∷ ts) a = rank_same i ts a

  rank_other :
      (i j : ℕ) (ts : List (Thread V)) (a : Awaiter V)
      → i ≢ j
      → rank_at j (step i ts a).0 ≡ rank_at j ts
  unfolding rank_at step
  rank_other i j [] a h = refl
  rank_other zero zero (t ∷ ts) a h = absurd (h refl)
  rank_other zero (suc j) (t ∷ ts) a h = refl
  rank_other (suc i) zero (t ∷ ts) a h = refl
  rank_other (suc i) (suc j) (t ∷ ts) a h = rank_other i j ts a (λ e. h (ap suc e))

  -- Only the fourth step resumes.
  advance_quiet :
      (t : Thread V) (a : Awaiter V) → rank t ≤ 2 → (advance t a).1.resumptions ≡ a.resumptions
  unfolding rank advance store
  advance_quiet (getting o) a h = refl
  advance_quiet (arrived o) a h = ground arith
  advance_quiet (storing (returned v)) a h = refl
  advance_quiet (storing (threw e)) a h = refl
  advance_quiet resuming a h = absurd (omega arith)
  advance_quiet ended a h = refl

  step_quiet :
      (i : ℕ) (ts : List (Thread V)) (a : Awaiter V)
      → rank_at i ts ≤ 2
      → (step i ts a).1.resumptions ≡ a.resumptions
  unfolding rank_at step
  step_quiet i [] a h = refl
  step_quiet zero (t ∷ ts) a h = advance_quiet t a h
  step_quiet (suc i) (t ∷ ts) a h = step_quiet i ts a h

  alive : (a : Awaiter V) → a.resumptions ≡ [] → is_destroyed a ≡ false
  unfolding is_destroyed
  alive a h = rw h refl

  rank_left :
      (i j : ℕ) (schedule : List ℕ) (ts : List (Thread V)) (a : Awaiter V)
      → rank_at j ts + occurrences j (i ∷ schedule) ≤ 3
      → rank_at j (step i ts a).0 + occurrences j schedule ≤ 3
  unfolding occurrences
  rank_left i j schedule ts a h = elim (Bool-cases (i == j)) [
    | inl y ↦
        let e : i ≡ j = (==_iff i j).0 y in
        let s = subst (λ k. rank_at k (step i ts a).0 ≤ suc (rank_at k ts)) e (rank_same i ts a) in
        let h' = rw y at h in omega (arith, s, h')
    | inr n ↦
        let s = rank_other i j ts a (λ e. ground arith) in
        let h' = rw n at h in omega (arith, s, h')
  ]

  pub early_run :
      (early : List ℕ) (ts : List (Thread V)) (a : Awaiter V)
      → ((i : ℕ) → rank_at i ts + occurrences i early ≤ 3)
      → a.resumptions ≡ []
      → run_threads early ts a ≡ some (run early ts a)
  unfolding run_threads run
  early_run [] ts a h r = refl
  early_run (i ∷ early) ts a h r =
      let low : rank_at i ts ≤ 2 = omega (arith, h i, taken i early) in
      rw (run_threads, alive a r)
        (early_run early (step i ts a).0 (step i ts a).1 (λ j. rank_left i j early ts a (h j))
          (step_quiet i ts a low ∙ r))

  pub rank-getting : (outcomes : List (Result V)) (i : ℕ) → rank_at i (map getting outcomes) ≡ 0
  unfolding rank_at rank
  rank-getting [] i = refl
  rank-getting (o ∷ outcomes) zero = refl
  rank-getting (o ∷ outcomes) (suc i) = rank-getting outcomes i
