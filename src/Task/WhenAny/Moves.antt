-- ===== src/Task/WhenAny/Moves.antt =====
-- How the steps of the threads of `Task::when_any_impl` of include/async/task.hpp lead from one phase
-- to the next.
use mathlib.Core.List
use http_web_framework.Prelude.{
  List, [], ap, arith, false, refl, sym, true, ◌++◌, ◌∙◌, ◌∷◌, ◌≡◌, ◌≢◌,
}
use http_web_framework.Throwing.{Result, returned, threw}
use http_web_framework.Task.WhenAny.{
  Awaiter, Thread, arrived, await_resume, ended, resume, resuming, store, storing,
}
use http_web_framework.Task.WhenAny.Phases.{
  IsOutcome, Phase, alone, answered_phase, await_resume-store, both_empty, flat_map-around, holder,
  no_holder, nothing, open_phase, past, resuming_phase, storing_phase,
}

module _ {V : Type 0} where
  pub enter :
      {outcomes : List (Result V)} (pre : List (Thread V)) (o : Result V) (post : List (Thread V))
      (a : Awaiter V)
      → a.completed ≡ false
      → IsOutcome outcomes o
      → Phase outcomes (pre ++ arrived o ∷ post) a
      → Phase outcomes (pre ++ storing o ∷ post) (record a { completed = true })
  unfolding past holder
  enter pre o post a k i (open_phase c e r w) =
      let (wp, wq) =
        both_empty (List.flat_map past pre) (List.flat_map past post)
          (sym (flat_map-around past pre (arrived o) post) ∙ w) in
      storing_phase o i refl e r (
        flat_map-around holder pre (storing o) post ∙ rw (no_holder pre wp, no_holder post wq) refl)
  enter pre o post a k i (storing_phase o' i' c e r w) = ground arith
  enter pre o post a k i (resuming_phase o' i' c e r w) = ground arith
  enter pre o post a k i (answered_phase o' i' c r w) = ground arith

  -- A thread that is listed is not missing among the others, and is alone if the list has one.
  listed :
      (f : Thread V → List (Thread V)) (pre : List (Thread V)) (t : Thread V)
      (post : List (Thread V))
      → f t ≡ t ∷ []
      → List.flat_map f (pre ++ t ∷ post) ≢ []
  listed f pre t post h w = nothing (List.flat_map f pre) t (List.flat_map f post) (
      ap (λ x. List.flat_map f pre ++ (x ++ List.flat_map f post)) (sym h)
      ∙ sym (flat_map-around f pre t post)
      ∙ w)

  listed_alone :
      (pre : List (Thread V)) (t : Thread V) (post : List (Thread V)) (u : Thread V)
      → holder t ≡ t ∷ []
      → List.flat_map holder (pre ++ t ∷ post) ≡ u ∷ []
      → (List.flat_map holder pre ≡ []) × (t ≡ u) × (List.flat_map holder post ≡ [])
  listed_alone pre t post u h w = alone (List.flat_map holder pre) t (List.flat_map holder post) u (
      ap (λ x. List.flat_map holder pre ++ (x ++ List.flat_map holder post)) (sym h)
      ∙ sym (flat_map-around holder pre t post)
      ∙ w)

  completed-store : (o : Result V) (a : Awaiter V) → (store o a).completed ≡ a.completed
  unfolding store
  completed-store (returned v) a = refl
  completed-store (threw e) a = refl

  resumptions-store : (o : Result V) (a : Awaiter V) → (store o a).resumptions ≡ a.resumptions
  unfolding store
  resumptions-store (returned v) a = refl
  resumptions-store (threw e) a = refl

  pub leave_storing :
      {outcomes : List (Result V)} (pre : List (Thread V)) (o : Result V) (post : List (Thread V))
      (a : Awaiter V)
      → IsOutcome outcomes o
      → Phase outcomes (pre ++ storing o ∷ post) a
      → Phase outcomes (pre ++ resuming ∷ post) (store o a)
  unfolding past holder
  leave_storing pre o post a i (open_phase c e r w) =
      absurd (listed past pre (storing o) post refl w)
  leave_storing pre o post a i (storing_phase o' i' c e r w) =
      let (wp, s, wq) = listed_alone pre (storing o) post (storing o') refl w in
      resuming_phase o i (completed-store o a ∙ c) (await_resume-store o a e)
        (resumptions-store o a ∙ r) (flat_map-around holder pre resuming post ∙ rw (wp, wq) refl)
  leave_storing pre o post a i (resuming_phase o' i' c e r w) =
      let (wp, s, wq) = listed_alone pre (storing o) post resuming refl w in ground arith
  leave_storing pre o post a i (answered_phase o' i' c r w) =
      absurd (listed holder pre (storing o) post refl w)

  pub leave_resuming :
      {outcomes : List (Result V)} (pre post : List (Thread V)) (a : Awaiter V)
      → Phase outcomes (pre ++ resuming ∷ post) a
      → Phase outcomes (pre ++ ended ∷ post) (resume a)
  unfolding past holder resume await_resume
  leave_resuming pre post a (open_phase c e r w) = absurd (listed past pre resuming post refl w)
  leave_resuming pre post a (storing_phase o i c e r w) =
      let (wp, s, wq) = listed_alone pre resuming post (storing o) refl w in ground arith
  leave_resuming pre post a (resuming_phase o i c e r w) =
      let (wp, s, wq) = listed_alone pre resuming post resuming refl w in
      answered_phase o i c (rw (r, e) refl)
        (flat_map-around holder pre ended post ∙ rw (wp, wq) refl)
  leave_resuming pre post a (answered_phase o i c r w) =
      absurd (listed holder pre resuming post refl w)
