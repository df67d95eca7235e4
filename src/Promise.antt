-- ===== src/Promise.antt =====
-- include/async/promise.hpp: the class Promise, for values of any type and for `void` (the type
-- with one value), over the std::promise that it holds; what is proved of it is in the children.
-- A std::promise is known by the number of its shared state, which its future shares.
pub mod Delivery
pub mod Validity
pub mod Units
use http_web_framework.Prelude.{
  Bool, Option, false, if◌then◌else◌, is_some, none, some, true, ℕ, ◌+◌, ◌==◌,
}
use http_web_framework.Text.{Bytes, codes}
use http_web_framework.Throwing.{
  Exception, Result, Void, returned, threw, runtime_error, promise_already_satisfied,
  future_already_retrieved, broken_promise,
}

abbrev pub not_valid : Exception
not_valid = runtime_error (codes "Promise is not valid")

-- The shared state of a std::promise and its future: whether the future was handed out, and the
-- outcome, which becomes ready at once or at the thread's end.
pub record Shared (A : Type 0) : Type 0 where
  pub retrieved : Bool
  pub stored : Option (Result A)
  pub ready : Bool

-- The member promise_, a pointer that can be null, and the shared states, of which the first `fresh`
-- were made.
pub record Promise (A : Type 0) : Type 0 where
  pub promise : Option ℕ
  pub states : ℕ → Shared A
  pub fresh : ℕ

module _ {A : Type 0} where
  abbrev pub blank_state : Shared A
  blank_state = record { retrieved = false; stored = none; ready = false }

  abbrev pub put : ℕ → Shared A → (ℕ → Shared A) → ℕ → Shared A
  put i s states j = if i == j then s else states j

  -- The destructor of std::promise: without an outcome the future gets broken_promise.
  unfoldable pub abandon : Option ℕ → Promise A → Promise A
  abandon none p = p
  abandon (some i) p = elim (p.states i).stored [
    | some o ↦ p
    | none ↦
        let s = record (p.states i) { stored = some (threw broken_promise); ready = true } in
        record p { states = put i s p.states }
  ]

  -- `std::promise::set_value` and `set_exception`, and their forms for the thread's end.
  unfoldable pub satisfy : Bool → Result A → ℕ → Promise A → Result Void × Promise A
  satisfy now o i p = elim (p.states i).stored [
    | some o' ↦ (threw promise_already_satisfied, p)
    | none ↦ (
      returned tt,
      record p { states = put i (record (p.states i) { stored = some o; ready = now }) p.states },
    )
  ]

  -- `Promise()`
  abbrev pub new_promise : Promise A
  new_promise = record { promise = some 0; states = λ i. blank_state; fresh = 1 }

  unfoldable pub valid : Promise A → Bool
  valid p = is_some p.promise

  -- The new std::promise is made, and then the old one destroyed.
  unfoldable pub reset : Promise A → Promise A
  reset p = abandon p.promise (record p {
    promise = some p.fresh;
    states = put p.fresh blank_state p.states;
    fresh = p.fresh + 1;
  })

  -- The future is the number of its shared state.
  unfoldable pub get_future : Promise A → Result ℕ × Promise A
  get_future p = elim p.promise [
    | none ↦ (threw (runtime_error (codes "Promise has already provided a future")), p)
    | some i ↦ if (p.states i).retrieved then (threw future_already_retrieved, p) else (
      returned i,
      record p { states = put i (record (p.states i) { retrieved = true }) p.states },
    )
  ]

  -- The `try` block of set_value and set_exception: `promise_.reset()` behind a success, and
  -- another exception for promise_already_satisfied.
  unfoldable pub settle : Result Void × Promise A → Result Void × Promise A
  settle (returned u, p) = (returned u, abandon p.promise (record p { promise = none }))
  settle (threw promise_already_satisfied, p) =
      (threw (runtime_error (codes "Promise already satisfied")), p)
  settle (threw e, p) = (threw e, p)

  unfoldable pub set_value : A → Promise A → Result Void × Promise A
  set_value v p = elim p.promise [
    | none ↦ (threw not_valid, p)
    | some i ↦ settle (satisfy true (returned v) i p)
  ]

  unfoldable pub set_exception : Exception → Promise A → Result Void × Promise A
  set_exception e p = elim p.promise [
    | none ↦ (threw not_valid, p)
    | some i ↦ settle (satisfy true (threw e) i p)
  ]

  unfoldable pub set_value_at_thread_exit : A → Promise A → Result Void × Promise A
  set_value_at_thread_exit v p = elim p.promise [
    | none ↦ (threw not_valid, p)
    | some i ↦ satisfy false (returned v) i p
  ]

  unfoldable pub set_exception_at_thread_exit : Exception → Promise A → Result Void × Promise A
  set_exception_at_thread_exit e p = elim p.promise [
    | none ↦ (threw not_valid, p)
    | some i ↦ satisfy false (threw e) i p
  ]

  -- The `catch (...)` of fulfill_with.
  unfoldable pub catch_all : Result Void × Promise A → Result Void × Promise A
  catch_all (returned u, p) = (returned u, p)
  catch_all (threw e, p) = set_exception e p

  -- `func()` is given by its result; `void` is the type with one value.
  unfoldable pub fulfill_with : Result A → Promise A → Result Void × Promise A
  fulfill_with (returned v) p = catch_all (set_value v p)
  fulfill_with (threw e) p = set_exception e p

  -- A function without a value, for a promise of one.
  unfoldable pub fulfill_with_void : Result Void → Promise A → Result Void × Promise A
  fulfill_with_void (returned u) p =
      set_exception (runtime_error (codes "Cannot set void value to non-void promise")) p
  fulfill_with_void (threw e) p = set_exception e p

  -- `create_pair`, and make_promise_future_pair.
  abbrev pub create_pair : Result ℕ × Promise A
  create_pair = get_future new_promise

  -- `func` is given by its result; the thread that runs it is detached, and the future waits for it.
  unfoldable pub async_execute : Result A → Result ℕ × Promise A
  async_execute func =
      let (future, promise) = create_pair in (future, (fulfill_with func promise).1)

  -- `std::future::get` on a shared state that is ready.
  unfoldable pub outcome : ℕ → Promise A → Option (Result A)
  outcome i p = if (p.states i).ready then (p.states i).stored else none
