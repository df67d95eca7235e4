-- ===== src/Promise/Validity.antt =====
-- Which calls of a Promise are accepted (include/async/promise.hpp).
use http_web_framework.Prelude.{
  ==_refl, Bool-cases, List, Option, Option-cases, [], ap, arith, false, if◌then◌else◌, inl, inr,
  lt→ne, none, refl, some, true, ℕ, ◌+◌, ◌<◌, ◌==◌, ◌∙◌, ◌∷◌, ◌≡◌,
}
use http_web_framework.Throwing.{Exception, Result, Void, returned, threw}
use http_web_framework.Promise.{
  Promise, Shared, abandon, blank_state, catch_all, fulfill_with, fulfill_with_void, get_future,
  new_promise, not_valid, put, reset, satisfy, set_exception, set_value, settle, valid,
}

-- The calls that change a promise, but for those that wait for the end of the thread.
pub data Call (A : Type 0) : Type 0 where
  retrieve : Call A
  give : A → Call A
  fail : Exception → Call A
  renew : Call A
  fulfill : Result A → Call A
  fulfill_void : Result Void → Call A

module _ {A : Type 0} where
  pub call : Call A → Promise A → Promise A
  call retrieve p = (get_future p).1
  call (give v) p = (set_value v p).1
  call (fail e) p = (set_exception e p).1
  call renew p = reset p
  call (fulfill func) p = (fulfill_with func p).1
  call (fulfill_void func) p = (fulfill_with_void func p).1

  pub call_all : List (Call A) → Promise A → Promise A
  call_all [] p = p
  call_all (c ∷ calls) p = call_all calls (call c p)

  -- A promise that is held has no outcome.
  abbrev IsOpen : Promise A → Type 0
  IsOpen p = (i : ℕ) → p.promise ≡ some i → ((p.states i).stored ≡ none) × (i < p.fresh)

  abandon-promise : (o : Option ℕ) (p : Promise A) → (abandon o p).promise ≡ p.promise
  unfolding abandon
  abandon-promise none p = refl
  abandon-promise (some i) p = elim (Option-cases (p.states i).stored) [
    | inl e ↦ rw (abandon, e)
    | inr (o, e) ↦ rw (abandon, e)
  ]

  -- A first outcome is accepted, and the promise is then no longer held.
  settle_open :
      (o : Result A) (i : ℕ) (p : Promise A)
      → (p.states i).stored ≡ none
      → ((settle (satisfy true o i p)).0 ≡ returned tt)
        × ((settle (satisfy true o i p)).1.promise ≡ none)
  unfolding settle satisfy
  settle_open o i p h = rw (satisfy, h) (refl, abandon-promise _ _)

  none-IsOpen : (p : Promise A) → p.promise ≡ none → IsOpen p
  none-IsOpen p h i e = cc

  at-IsOpen :
      (p : Promise A) (k : ℕ)
      → p.promise ≡ some k
      → (p.states k).stored ≡ none
      → k < p.fresh
      → IsOpen p
  at-IsOpen p k h s l i e = let same : k ≡ i = cc in rw (← same) (s, l)

  value_open :
      (v : A) (p : Promise A)
      → IsOpen p
      → ((set_value v p).0 ≡ (if valid p then returned tt else threw not_valid))
        × ((set_value v p).1.promise ≡ none)
  unfolding set_value valid
  value_open v p h = elim (Option-cases p.promise) [
    | inl e ↦ rw (set_value, e) (refl, e)
    | inr (i, e) ↦ rw (set_value, e) (settle_open (returned v) i p (h i e).0)
  ]

  exception_open :
      (x : Exception) (p : Promise A)
      → IsOpen p
      → ((set_exception x p).0 ≡ (if valid p then returned tt else threw not_valid))
        × ((set_exception x p).1.promise ≡ none)
  unfolding set_exception valid
  exception_open x p h = elim (Option-cases p.promise) [
    | inl e ↦ rw (set_exception, e) (refl, e)
    | inr (i, e) ↦ rw (set_exception, e) (settle_open (threw x) i p (h i e).0)
  ]

  abandon_other :
      (k j : ℕ) (p : Promise A)
      → (k == j) ≡ false
      → (((abandon (some k) p).states j) ≡ p.states j) × ((abandon (some k) p).fresh ≡ p.fresh)
  unfolding abandon
  abandon_other k j p h = elim (Option-cases (p.states k).stored) [
    | inl e ↦ rw (abandon, e) (rw h refl, refl)
    | inr (o, e) ↦ rw (abandon, e) (refl, refl)
  ]

  -- The promise that reset makes, before the old one is destroyed.
  abbrev renewed : Promise A → Promise A
  renewed p = record p {
    promise = some p.fresh;
    states = put p.fresh blank_state p.states;
    fresh = p.fresh + 1;
  }

  blank_stored : (k : ℕ) (states : ℕ → Shared A) → (put k blank_state states k).stored ≡ none
  blank_stored k states = rw (==_refl k)

  reset-IsOpen : (p : Promise A) → IsOpen p → IsOpen (reset p)
  unfolding reset abandon
  reset-IsOpen p h = elim (Option-cases p.promise) [
    | inl e ↦
        rw (reset, e)
          (at-IsOpen (renewed p) p.fresh refl (blank_stored p.fresh p.states) (ground arith))
    | inr (k, e) ↦
        let (states, count) = abandon_other k p.fresh (renewed p) (lt→ne k p.fresh (h k e).1) in
        rw (reset, e)
          (at-IsOpen (abandon (some k) (renewed p)) p.fresh (abandon-promise (some k) (renewed p))
            (ap (λ (s : Shared A). s.stored) states ∙ blank_stored p.fresh p.states)
            (rw count (ground arith)))
  ]

  get_future-IsOpen : (p : Promise A) → IsOpen p → IsOpen (get_future p).1
  unfolding get_future
  get_future-IsOpen p h = elim (Option-cases p.promise) [
    | inl e ↦ rw (get_future, e) h
    | inr (k, e) ↦ elim (Bool-cases (p.states k).retrieved) [
      | inl twice ↦ rw (get_future, e, twice) h
      | inr once ↦
          rw (get_future, e, once)
            (let handed = record p {
              states = put k (record (p.states k) { retrieved = true }) p.states;
            } in
              at-IsOpen handed k e (rw (==_refl k) (h k e).0) (h k e).1)
    ]
  ]

  caught_none : (r : Result Void × Promise A) → r.1.promise ≡ none → (catch_all r).1.promise ≡ none
  unfolding catch_all
  caught_none (returned u, p) h = h
  caught_none (threw e, p) h = (exception_open e p (none-IsOpen p h)).1

  fulfill_none :
      (func : Result A) (p : Promise A) → IsOpen p → (fulfill_with func p).1.promise ≡ none
  unfolding fulfill_with catch_all
  fulfill_none (threw x) p h = (exception_open x p h).1
  fulfill_none (returned v) p h = caught_none (set_value v p) (value_open v p h).1

  void_none :
      (func : Result Void) (p : Promise A) → IsOpen p → (fulfill_with_void func p).1.promise ≡ none
  unfolding fulfill_with_void
  void_none (threw x) p h = (exception_open x p h).1
  void_none (returned u) p h = (exception_open _ p h).1

  call-IsOpen : (c : Call A) (p : Promise A) → IsOpen p → IsOpen (call c p)
  unfolding call
  call-IsOpen retrieve p h = get_future-IsOpen p h
  call-IsOpen (give v) p h = none-IsOpen (set_value v p).1 (value_open v p h).1
  call-IsOpen (fail x) p h = none-IsOpen (set_exception x p).1 (exception_open x p h).1
  call-IsOpen renew p h = reset-IsOpen p h
  call-IsOpen (fulfill func) p h = none-IsOpen (fulfill_with func p).1 (fulfill_none func p h)
  call-IsOpen (fulfill_void func) p h =
      none-IsOpen (fulfill_with_void func p).1 (void_none func p h)

  call_all-IsOpen : (calls : List (Call A)) (p : Promise A) → IsOpen p → IsOpen (call_all calls p)
  unfolding call_all
  call_all-IsOpen [] p h = h
  call_all-IsOpen (c ∷ calls) p h = call_all-IsOpen calls (call c p) (call-IsOpen c p h)

  -- After any calls on a new promise (get_future, set_value, set_exception, reset and both
  -- fulfill_with), set_value and set_exception are accepted exactly if `valid` says so, and throw
  -- `Promise is not valid` otherwise: the message `Promise already satisfied` is never thrown. Either
  -- way the promise is not valid afterwards.
  pub set_value-valid :
      (calls : List (Call A)) (v : A) (x : Exception)
      → let p = call_all calls new_promise in
        ((set_value v p).0 ≡ (if valid p then returned tt else threw not_valid))
        × ((set_exception x p).0 ≡ (if valid p then returned tt else threw not_valid))
        × (valid (set_value v p).1 ≡ false)
        × (valid (set_exception x p).1 ≡ false)
  unfolding valid
  set_value-valid calls v x =
      let h =
        call_all-IsOpen calls new_promise (at-IsOpen new_promise 0 refl refl (ground arith)) in
      let (value, gone) = value_open v (call_all calls new_promise) h in
      let (exception, gone') = exception_open x (call_all calls new_promise) h in
      (value, exception, rw gone refl, rw gone' refl)
