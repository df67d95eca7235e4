-- ===== src/Promise/Delivery.antt =====
-- What the future of a Promise gets (include/async/promise.hpp).
use http_web_framework.Prelude.{==_refl, Bool-cases, false, inl, inr, refl, some, true, ℕ, ◌≡◌}
use http_web_framework.Throwing.{Result, future_already_retrieved, returned, threw}
use http_web_framework.Promise.{
  Promise, abandon, async_execute, catch_all, create_pair, fulfill_with, get_future, outcome, put,
  satisfy, set_exception, set_value, settle, valid,
}

module _ {A : Type 0} where
  -- The function's value, or the exception that it throws, is what the future of async_execute has,
  -- and the promise is used up: fulfill_with in the state in which create_pair leaves a promise
  -- accepts both.
  pub async_execute_lem :
      (func : Result A)
      → ((async_execute func).0 ≡ returned 0)
        × (outcome 0 (async_execute func).1 ≡ some func)
        × (valid (async_execute func).1 ≡ false)
        × ((fulfill_with func (create_pair {A = A}).1).0 ≡ returned tt)
  unfolding async_execute get_future fulfill_with set_value set_exception settle satisfy abandon
      outcome valid catch_all
  async_execute_lem (returned v) = (refl, refl, refl, refl)
  async_execute_lem (threw e) = (refl, refl, refl, refl)

  get_future_retrieved :
      (p : Promise A) (k : ℕ)
      → p.promise ≡ some k
      → (p.states k).retrieved ≡ true
      → get_future p ≡ (threw future_already_retrieved, p)
  unfolding get_future
  get_future_retrieved p k e twice = simp (get_future, e, twice)

  -- The future of a valid promise can be had once at most: as long as the promise is neither set nor
  -- renewed, get_future behind get_future throws future_already_retrieved and changes nothing. The
  -- message of get_future itself is for a promise that is not valid.
  pub get_future_once :
      (p : Promise A) (k : ℕ)
      → p.promise ≡ some k
      → get_future (get_future p).1 ≡ (threw future_already_retrieved, (get_future p).1)
  unfolding get_future
  get_future_once p k e = elim (Bool-cases (p.states k).retrieved) [
    | inl twice ↦ rw (get_future_retrieved p k e twice) (get_future_retrieved p k e twice)
    | inr free ↦
        let handed = record p {
          states = put k (record (p.states k) { retrieved = true }) p.states;
        } in
        let step : get_future p ≡ (returned k, handed) = simp (get_future, e, free) in
        rw step (get_future_retrieved handed k e (rw (==_refl k)))
  ]
