-- ===== src/Task/WhenAny/Phases.antt =====
-- How far the threads of `Task::when_any_impl` of include/async/task.hpp are together, as a
-- predicate on the threads and the awaiter.
use mathlib.Core.List
use http_web_framework.Prelude.{
  All, List, [], ap, append_assoc, arith, false, get_elem?, inl, inr, none, refl, some, suc, sym,
  true, zero, ℕ, ◌++◌, ◌∙◌, ◌∷◌, ◌≡◌, ◌≢◌, ◌⊎◌,
}
use http_web_framework.Throwing.{Result, returned, threw}
use http_web_framework.Task.WhenAny.{
  Awaiter, Thread, advance, arrived, await_resume, ended, getting, resuming, step, store, storing,
}

module _ {V : Type 0} where
  -- A thread between its `exchange` that found false and the end of `handle.resume()`.
  unfoldable pub holder : Thread V → List (Thread V)
  holder (storing o) = storing o ∷ []
  holder resuming = resuming ∷ []
  holder t = []

  -- A thread that has been at `exchange`.
  unfoldable pub past : Thread V → List (Thread V)
  past (getting o) = []
  past (arrived o) = []
  past t = t ∷ []

  unfoldable pub IsOutcome : List (Result V) → Result V → Type 0
  IsOutcome outcomes o = (i : ℕ) × (get_elem? outcomes i ≡ some o)

  -- What a thread carries is what its task gave.
  unfoldable pub Carries : List (Result V) → Thread V → Type 0
  Carries outcomes (getting o) = IsOutcome outcomes o
  Carries outcomes (arrived o) = IsOutcome outcomes o
  Carries outcomes (storing o) = IsOutcome outcomes o
  Carries outcomes resuming = Unit
  Carries outcomes ended = Unit

-- How far the threads are, together: none has been at `exchange`; one of them stores its outcome; it
-- resumes the coroutine; it has done so.
pub data Phase {V : Type 0} (outcomes : List (Result V)) (ts : List (Thread V)) (a : Awaiter V)
    : Type 0 where
  open_phase :
      a.completed ≡ false
      → a.exception ≡ none
      → a.resumptions ≡ []
      → List.flat_map past ts ≡ []
      → Phase outcomes ts a
  storing_phase :
      (o : Result V)
      → IsOutcome outcomes o
      → a.completed ≡ true
      → a.exception ≡ none
      → a.resumptions ≡ []
      → List.flat_map holder ts ≡ storing o ∷ []
      → Phase outcomes ts a
  resuming_phase :
      (o : Result V)
      → IsOutcome outcomes o
      → a.completed ≡ true
      → await_resume a ≡ o
      → a.resumptions ≡ []
      → List.flat_map holder ts ≡ resuming ∷ []
      → Phase outcomes ts a
  answered_phase :
      (o : Result V)
      → IsOutcome outcomes o
      → a.completed ≡ true
      → a.resumptions ≡ o ∷ []
      → List.flat_map holder ts ≡ []
      → Phase outcomes ts a

module _ {V : Type 0} where
  unfoldable pub Inv : List (Result V) → List (Thread V) → Awaiter V → Type 0
  Inv outcomes ts a = All (Carries outcomes) ts × Phase outcomes ts a

  -- A step changes nothing, or it is the step of a thread among the others.
  pub step-split :
      (i : ℕ) (ts : List (Thread V)) (a : Awaiter V)
      → (step i ts a ≡ (ts, a))
        ⊎ ((pre : List (Thread V)) × (t : Thread V) × (post : List (Thread V)) × (ts
              ≡ pre ++ t ∷ post)
            × (step i ts a ≡ (pre ++ (advance t a).0 ∷ post, (advance t a).1)))
  unfolding step
  step-split i [] a = inl refl
  step-split zero (t ∷ ts) a = inr ([], t, ts, refl, refl)
  step-split (suc i) (t ∷ ts) a = elim (step-split i ts a) [
    | inl e ↦ inl (ap (λ (p : List (Thread V) × Awaiter V). (t ∷ p.0, p.1)) e)
    | inr (pre, u, post, e, s) ↦ inr (
      t ∷ pre,
      u,
      post,
      ap (λ us. t ∷ us) e,
      ap (λ (p : List (Thread V) × Awaiter V). (t ∷ p.0, p.1)) s,
    )
  ]

  -- Where one thread stands among the others.
  pub flat_map-around :
      (f : Thread V → List (Thread V)) (pre : List (Thread V)) (t : Thread V)
      (post : List (Thread V))
      → List.flat_map f (pre ++ t ∷ post) ≡ List.flat_map f pre ++ (f t ++ List.flat_map f post)
  unfolding List.flat_map
  flat_map-around f [] t post = refl
  flat_map-around f (u ∷ pre) t post =
      rw (flat_map-around f pre t post)
        (sym (append_assoc (f u) (List.flat_map f pre) (f t ++ List.flat_map f post)))

  pub no_holder : (ts : List (Thread V)) → List.flat_map past ts ≡ [] → List.flat_map holder ts ≡ []
  unfolding List.flat_map past holder
  no_holder [] h = refl
  no_holder (getting o ∷ ts) h = no_holder ts h
  no_holder (arrived o ∷ ts) h = no_holder ts h
  no_holder (storing o ∷ ts) h = ground arith
  no_holder (resuming ∷ ts) h = ground arith
  no_holder (ended ∷ ts) h = ground arith

  pub around-same :
      (f : Thread V → List (Thread V)) (pre : List (Thread V)) (t u : Thread V)
      (post : List (Thread V))
      → f t ≡ f u
      → List.flat_map f (pre ++ t ∷ post) ≡ List.flat_map f (pre ++ u ∷ post)
  around-same f pre t u post h =
      flat_map-around f pre t post
      ∙ ap (λ x. List.flat_map f pre ++ (x ++ List.flat_map f post)) h
      ∙ sym (flat_map-around f pre u post)

  pub alone :
      (xs : List (Thread V)) (x : Thread V) (ys : List (Thread V)) (y : Thread V)
      → xs ++ (x ∷ ys) ≡ y ∷ []
      → (xs ≡ []) × (x ≡ y) × (ys ≡ [])
  alone [] x ys y h = ground arith
  alone (z ∷ []) x ys y h = ground arith
  alone (z ∷ w ∷ xs) x ys y h = ground arith

  pub nothing : (xs : List (Thread V)) (x : Thread V) (ys : List (Thread V)) → (xs ++ (x ∷ ys)) ≢ []
  nothing [] x ys h = ground arith
  nothing (z ∷ xs) x ys h = ground arith

  pub both_empty : (xs ys : List (Thread V)) → xs ++ ([] ++ ys) ≡ [] → (xs ≡ []) × (ys ≡ [])
  both_empty [] ys h = (refl, h)
  both_empty (x ∷ xs) ys h = ground arith

  pub unchanged :
      {outcomes : List (Result V)} (ts us : List (Thread V)) (a : Awaiter V)
      → List.flat_map past us ≡ List.flat_map past ts
      → List.flat_map holder us ≡ List.flat_map holder ts
      → Phase outcomes ts a
      → Phase outcomes us a
  unchanged ts us a p h (open_phase c e r w) = open_phase c e r (p ∙ w)
  unchanged ts us a p h (storing_phase o i c e r w) = storing_phase o i c e r (h ∙ w)
  unchanged ts us a p h (resuming_phase o i c e r w) = resuming_phase o i c e r (h ∙ w)
  unchanged ts us a p h (answered_phase o i c r w) = answered_phase o i c r (h ∙ w)

  pub overtaken :
      {outcomes : List (Result V)} (ts us : List (Thread V)) (a : Awaiter V)
      → a.completed ≡ true
      → List.flat_map holder us ≡ List.flat_map holder ts
      → Phase outcomes ts a
      → Phase outcomes us a
  overtaken ts us a k h (open_phase c e r w) = ground arith
  overtaken ts us a k h (storing_phase o i c e r w) = storing_phase o i c e r (h ∙ w)
  overtaken ts us a k h (resuming_phase o i c e r w) = resuming_phase o i c e r (h ∙ w)
  overtaken ts us a k h (answered_phase o i c r w) = answered_phase o i c r (h ∙ w)

  pub await_resume-store :
      (o : Result V) (a : Awaiter V) → a.exception ≡ none → await_resume (store o a) ≡ o
  unfolding await_resume store
  await_resume-store (returned v) a h = ground arith
  await_resume-store (threw e) a h = refl
