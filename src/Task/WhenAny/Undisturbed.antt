-- ===== src/Task/WhenAny/Undisturbed.antt =====
-- Schedules under which no thread of `Task::when_any_impl` of include/async/task.hpp needs the awaiter
-- when it is destroyed.
use mathlib.Core.List
use mathlib.Core.Path.{subst}
use http_web_framework.Prelude.{
  ==_iff, Bool-cases, List, [], ap, arith, false, inl, inr, length, ltb, ltb→lt, map, refl, some,
  suc, sym, zero, ℕ, ◌&&◌, ◌++◌, ◌-◌, ◌<◌, ◌==◌, ◌∙◌, ◌∷◌, ◌≡◌, ◌≤◌,
}
use http_web_framework.Throwing.{Result}
use http_web_framework.Task.WhenAny.{
  Awaiter, Thread, arrived, await_suspend, ended, getting, is_active_at, is_destroyed, new_awaiter,
  resuming, run, run_threads, step, storing,
}
use http_web_framework.Task.WhenAny.Phases.{Inv, holder}
use http_web_framework.Task.WhenAny.Once.{destroyed_answer}
use http_web_framework.Task.WhenAny.Kept.{reached-Inv, step-Inv}
use http_web_framework.Task.WhenAny.Steps.{
  occurrences, remaining, remaining-getting, remaining-run, remaining_at, step_other, step_same,
}
use http_web_framework.Task.WhenAny.Early.{early_run, rank-getting}

-- Each thread takes two or three steps.
unfoldable pub IsGathered : {V : Type 0} → List (Result V) → List ℕ → Type 0
IsGathered outcomes early =
    ((i : ℕ) → i < length outcomes → 2 ≤ occurrences i early) × ((i : ℕ) → occurrences i early ≤ 3)

module _ {V : Type 0} where
  -- Behind `exchange` a thread that holds nothing has ended.
  ended_at :
      (i : ℕ) (ts : List (Thread V))
      → List.flat_map holder ts ≡ []
      → ((j : ℕ) → remaining_at j ts ≤ 2)
      → is_active_at i ts ≡ false
  unfolding is_active_at holder remaining_at remaining List.flat_map
  ended_at i [] w h = refl
  ended_at i (getting o ∷ ts) w h = let z = h 0 in absurd (omega (arith, z))
  ended_at i (arrived o ∷ ts) w h = let z = h 0 in absurd (omega (arith, z))
  ended_at i (storing o ∷ ts) w h = ground arith
  ended_at i (resuming ∷ ts) w h = ground arith
  ended_at zero (ended ∷ ts) w h = refl
  ended_at (suc i) (ended ∷ ts) w h = ended_at i ts w (λ j. h (suc j))

  untouched :
      (outcomes : List (Result V)) (i : ℕ) (ts : List (Thread V)) (a : Awaiter V)
      → Inv outcomes ts a
      → ((j : ℕ) → remaining_at j ts ≤ 2)
      → (is_destroyed a && is_active_at i ts) ≡ false
  unfolding Inv
  untouched outcomes i ts a (c, p) h = elim (Bool-cases (is_destroyed a)) [
    | inl y ↦
        let (o, is, answer, w) = destroyed_answer outcomes ts a p y in
        let e = ended_at i ts w h in ground arith
    | inr n ↦ ground arith
  ]

  remaining-step :
      (i j : ℕ) (ts : List (Thread V)) (a : Awaiter V)
      → remaining_at j (step i ts a).0 ≤ remaining_at j ts
  remaining-step i j ts a = elim (Bool-cases (i == j)) [
    | inl y ↦
        let e : i ≡ j = (==_iff i j).0 y in
        let s =
          subst (λ k. remaining_at k (step i ts a).0 ≤ remaining_at k ts - 1) e
            (step_same i ts a) in
        omega (arith, s)
    | inr n ↦ let s = step_other i j ts a (λ e. ground arith) in omega (arith, s)
  ]

  late_run :
      (outcomes : List (Result V)) (late : List ℕ) (ts : List (Thread V)) (a : Awaiter V)
      → Inv outcomes ts a
      → ((j : ℕ) → remaining_at j ts ≤ 2)
      → run_threads late ts a ≡ some (run late ts a)
  unfolding run_threads run
  late_run outcomes [] ts a v h = refl
  late_run outcomes (i ∷ late) ts a v h =
      rw (run_threads, untouched outcomes i ts a v h)
        (late_run outcomes late (step i ts a).0 (step i ts a).1 (step-Inv outcomes i ts a v)
          (λ j. let s = remaining-step i j ts a in let b = h j in omega (arith, s, b)))

  run-append :
      (early late : List ℕ) (ts : List (Thread V)) (a : Awaiter V)
      → run (early ++ late) ts a ≡ run late (run early ts a).0 (run early ts a).1
  unfolding run
  run-append [] late ts a = refl
  run-append (i ∷ early) late ts a = run-append early late (step i ts a).0 (step i ts a).1

  -- The same as far as the first part is defined.
  run_threads-append :
      (early late : List ℕ) (ts : List (Thread V)) (a : Awaiter V)
      → run_threads early ts a ≡ some (run early ts a)
      → run_threads (early ++ late) ts a ≡ run_threads late (run early ts a).0 (run early ts a).1
  unfolding run_threads run
  run_threads-append [] late ts a h = refl
  run_threads-append (i ∷ early) late ts a h =
      elim (Bool-cases (is_destroyed a && is_active_at i ts)) [
        | inl y ↦ ground arith
        | inr n ↦
            let h' : run_threads early (step i ts a).0 (step i ts a).1
                ≡ some (run early (step i ts a).0 (step i ts a).1) =
              rw n at h in
            rw n (run_threads-append early late (step i ts a).0 (step i ts a).1 h')
      ]

  gathered_left :
      (outcomes : List (Result V)) (early : List ℕ) (a : Awaiter V)
      → IsGathered outcomes early
      → (i : ℕ) → remaining_at i (run early (await_suspend outcomes) a).0 ≤ 2
  unfolding IsGathered await_suspend
  gathered_left outcomes early a (least, most) i =
      let left = remaining-run i early (map getting outcomes) a in
      let (b, z) = remaining-getting outcomes i in
      elim (Bool-cases (ltb i (length outcomes))) [
        | inl y ↦ omega (arith, left, b, least i (ltb→lt i (length outcomes) y))
        | inr n ↦ let zero_left = z (ground arith) in omega (arith, left, zero_left)
      ]

  -- After such a first part any second part is defined.
  pub gathered_run :
      (outcomes : List (Result V)) (value : V) (early late : List ℕ)
      → IsGathered outcomes early
      → run_threads (early ++ late) (await_suspend outcomes) (new_awaiter value)
        ≡ some (run (early ++ late) (await_suspend outcomes) (new_awaiter value))
  unfolding IsGathered await_suspend new_awaiter
  gathered_run outcomes value early late g =
      let ts = await_suspend outcomes in
      let a = new_awaiter value in
      let first =
        early_run early ts a (λ i. let r = rank-getting outcomes i in omega (arith, r, g.1 i))
          refl in
      let s = run early ts a in
      run_threads-append early late ts a first
      ∙ late_run outcomes late s.0 s.1 (reached-Inv outcomes value early)
          (gathered_left outcomes early a g)
      ∙ ap some (sym (run-append early late ts a))
