-- ===== src/Task/WhenAny/Kept.antt =====
-- That the phase of `Task::when_any_impl` of include/async/task.hpp is an invariant of every step of
-- every thread.
use mathlib.Core.List
use mathlib.Core.Path.{subst}
use http_web_framework.Prelude.{
  All, Bool-cases, List, [], ap, false, get_elem?, if◌then◌else◌, inl, inr, map, refl, some, suc,
  sym, true, ℕ, ◌++◌, ◌∷◌, ◌≡◌,
}
use http_web_framework.Throwing.{Result}
use http_web_framework.Task.WhenAny.{
  Awaiter, Thread, advance, arrived, await_suspend, ended, getting, new_awaiter, resuming, run,
  step, storing,
}
use http_web_framework.Task.WhenAny.Moves.{enter, leave_resuming, leave_storing}
use http_web_framework.Task.WhenAny.Phases.{
  Carries, Inv, IsOutcome, Phase, around-same, holder, open_phase, overtaken, past, step-split,
  unchanged,
}

module _ {V : Type 0} where
  exchange_completed :
      (o : Result V) (a : Awaiter V) → a.completed ≡ true → advance (arrived o) a ≡ (ended, a)
  unfolding advance
  exchange_completed o a h =
      ap (λ b. if b then (ended, a) else (storing o, record a { completed = true })) h

  exchange_open :
      (o : Result V) (a : Awaiter V)
      → a.completed ≡ false
      → advance (arrived o) a ≡ (storing o, record a { completed = true })
  unfolding advance
  exchange_open o a h =
      ap (λ b. if b then (ended, a) else (storing o, record a { completed = true })) h

  advance-Phase :
      {outcomes : List (Result V)} (pre : List (Thread V)) (t : Thread V) (post : List (Thread V))
      (a : Awaiter V)
      → Carries outcomes t
      → Phase outcomes (pre ++ t ∷ post) a
      → Phase outcomes (pre ++ (advance t a).0 ∷ post) (advance t a).1
  unfolding advance Carries past holder
  advance-Phase pre (getting o) post a i p =
      unchanged (pre ++ getting o ∷ post) (pre ++ arrived o ∷ post) a
        (around-same past pre (arrived o) (getting o) post refl)
        (around-same holder pre (arrived o) (getting o) post refl) p
  advance-Phase {outcomes} pre (arrived o) post a i p = elim (Bool-cases a.completed) [
    | inl y ↦
        subst (λ s. Phase outcomes (pre ++ s.0 ∷ post) s.1) (sym (exchange_completed o a y))
          (overtaken (pre ++ arrived o ∷ post) (pre ++ ended ∷ post) a y
            (around-same holder pre ended (arrived o) post refl) p)
    | inr n ↦
        subst (λ s. Phase outcomes (pre ++ s.0 ∷ post) s.1) (sym (exchange_open o a n))
          (enter pre o post a n i p)
  ]
  advance-Phase pre (storing o) post a i p = leave_storing pre o post a i p
  advance-Phase pre resuming post a i p = leave_resuming pre post a p
  advance-Phase pre ended post a i p = p

  advance-Carries :
      (outcomes : List (Result V)) (t : Thread V) (a : Awaiter V)
      → Carries outcomes t
      → Carries outcomes (advance t a).0
  unfolding advance Carries
  advance-Carries outcomes (getting o) a i = i
  advance-Carries outcomes (arrived o) a i = elim (Bool-cases a.completed) [
    | inl y ↦ subst (λ s. Carries outcomes s.0) (sym (exchange_completed o a y)) tt
    | inr n ↦ subst (λ s. Carries outcomes s.0) (sym (exchange_open o a n)) i
  ]
  advance-Carries outcomes (storing o) a i = tt
  advance-Carries outcomes resuming a i = tt
  advance-Carries outcomes ended a i = tt

  All-around :
      (P : Thread V → Type 0) (pre : List (Thread V)) (t u : Thread V) (post : List (Thread V))
      → (P t → P u)
      → All P (pre ++ t ∷ post)
      → P t × All P (pre ++ u ∷ post)
  All-around P [] t u post f (h, hs) = (h, (f h, hs))
  All-around P (x ∷ pre) t u post f (h, hs) =
      let (k, ks) = All-around P pre t u post f hs in (k, (h, ks))

  pub step-Inv :
      (outcomes : List (Result V)) (i : ℕ) (ts : List (Thread V)) (a : Awaiter V)
      → Inv outcomes ts a
      → Inv outcomes (step i ts a).0 (step i ts a).1
  unfolding Inv
  step-Inv outcomes i ts a (c, p) = elim (step-split i ts a) [
    | inl e ↦ subst (λ s. Inv outcomes s.0 s.1) (sym e) (c, p)
    | inr (pre, t, post, e, s) ↦
        let c' = subst (All (Carries outcomes)) e c in
        let p' = subst (λ us. Phase outcomes us a) e p in
        let (k, ks) =
          All-around (Carries outcomes) pre t (advance t a).0 post (advance-Carries outcomes t a)
            c' in
        subst (λ s. Inv outcomes s.0 s.1) (sym s) (ks, advance-Phase pre t post a k p')
  ]

  pub run-Inv :
      (outcomes : List (Result V)) (schedule : List ℕ) (ts : List (Thread V)) (a : Awaiter V)
      → Inv outcomes ts a
      → Inv outcomes (run schedule ts a).0 (run schedule ts a).1
  unfolding run
  run-Inv outcomes [] ts a h = h
  run-Inv outcomes (i ∷ schedule) ts a h =
      run-Inv outcomes schedule (step i ts a).0 (step i ts a).1 (step-Inv outcomes i ts a h)

  getting-Carries :
      (all outcomes : List (Result V))
      → ((i : ℕ) (o : Result V) → get_elem? outcomes i ≡ some o → IsOutcome all o)
      → All (Carries all) (map getting outcomes)
  unfolding Carries
  getting-Carries all [] h = tt
  getting-Carries all (o ∷ outcomes) h =
      (h 0 o refl, getting-Carries all outcomes (λ i o' k. h (suc i) o' k))

  not_past : (outcomes : List (Result V)) → List.flat_map past (map getting outcomes) ≡ []
  unfolding past List.flat_map
  not_past [] = refl
  not_past (o ∷ outcomes) = not_past outcomes

  start-Inv :
      (outcomes : List (Result V)) (value : V)
      → Inv outcomes (await_suspend outcomes) (new_awaiter value)
  unfolding Inv IsOutcome await_suspend new_awaiter
  start-Inv outcomes value = (
    getting-Carries outcomes outcomes (λ i o h. (i, h)),
    open_phase refl refl refl (not_past outcomes),
  )

  pub reached-Inv :
      (outcomes : List (Result V)) (value : V) (schedule : List ℕ)
      → let s = run schedule (await_suspend outcomes) (new_awaiter value) in Inv outcomes s.0 s.1
  reached-Inv outcomes value schedule =
      run-Inv outcomes schedule (await_suspend outcomes) (new_awaiter value)
        (start-Inv outcomes value)
