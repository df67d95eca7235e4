-- ===== src/Promise/Units.antt =====
-- The specialisation of Promise for `void` of include/async/promise.hpp, whose shared state holds no
-- value, and the calls with arguments.
use http_web_framework.Prelude.{ap, false, if◌then◌else◌, none, refl, some, true, ℕ, ◌+◌, ◌∙◌, ◌≡◌}
use http_web_framework.Text.{codes}
use http_web_framework.Throwing.{
  Exception, Result, Void, future_already_retrieved, returned, runtime_error, threw,
}
use http_web_framework.Promise.{
  Promise, abandon, blank_state, catch_all, create_pair, fulfill_with, new_promise, not_valid, put,
  satisfy, set_exception, set_value, settle,
}

unfoldable pub get_future_void : Promise Void → Result ℕ × Promise Void
get_future_void p = elim p.promise [
  | none ↦ (threw (runtime_error (codes "Promise has already provided a future")), p)
  | some i ↦ if (p.states i).retrieved then (threw future_already_retrieved, p) else (
    returned i,
    record p { states = put i (record (p.states i) { retrieved = true }) p.states },
  )
]

unfoldable pub set_void : Promise Void → Result Void × Promise Void
set_void p = elim p.promise [
  | none ↦ (threw not_valid, p)
  | some i ↦ settle (satisfy true (returned tt) i p)
]

unfoldable pub set_exception_void : Exception → Promise Void → Result Void × Promise Void
set_exception_void ex p = elim p.promise [
  | none ↦ (threw not_valid, p)
  | some i ↦ settle (satisfy true (threw ex) i p)
]

unfoldable pub set_void_at_thread_exit : Promise Void → Result Void × Promise Void
set_void_at_thread_exit p = elim p.promise [
  | none ↦ (threw not_valid, p)
  | some i ↦ satisfy false (returned tt) i p
]

unfoldable pub set_exception_void_at_thread_exit :
    Exception → Promise Void → Result Void × Promise Void
set_exception_void_at_thread_exit ex p = elim p.promise [
  | none ↦ (threw not_valid, p)
  | some i ↦ satisfy false (threw ex) i p
]

-- The new std::promise is made, and then the old one destroyed.
unfoldable pub reset_void : Promise Void → Promise Void
reset_void p = abandon p.promise (record p {
  promise = some p.fresh;
  states = put p.fresh blank_state p.states;
  fresh = p.fresh + 1;
})

-- The `catch (...)` of fulfill_with.
unfoldable pub catch_void : Result Void × Promise Void → Result Void × Promise Void
catch_void (returned u, p) = (returned u, p)
catch_void (threw e, p) = set_exception_void e p

-- `func()` is given by its result.
unfoldable pub fulfill_void_with : Result Void → Promise Void → Result Void × Promise Void
fulfill_void_with (returned u) p = catch_void (set_void p)
fulfill_void_with (threw e) p = set_exception_void e p

unfoldable pub create_void_pair : Result ℕ × Promise Void
create_void_pair = get_future_void new_promise

-- A function with its arguments.
unfoldable pub fulfill_with_args :
    {A T : Type 0} → (A → Result T) → A → Promise T → Result Void × Promise T
fulfill_with_args func args p = fulfill_with (func args) p

-- The future, and the promise behind the thread that calls the function.
unfoldable pub async_execute_with_args : {A T : Type 0} → (A → Result T) → A → Result ℕ × Promise T
async_execute_with_args func args =
    let (future, promise) = create_pair in (future, (fulfill_with_args func args promise).1)

set_void_lem : (p : Promise Void) → set_void p ≡ set_value tt p
unfolding set_void set_value
set_void_lem p = refl

set_exception_void_lem :
    (e : Exception) (p : Promise Void) → set_exception_void e p ≡ set_exception e p
unfolding set_exception_void set_exception
set_exception_void_lem e p = refl

catch_void_lem : (x : Result Void × Promise Void) → catch_void x ≡ catch_all x
unfolding catch_void catch_all
catch_void_lem (returned u, p) = refl
catch_void_lem (threw e, p) = set_exception_void_lem e p

-- The specialisation does what the template does at the type with one value.
pub fulfill_void_with-fulfill_with :
    (o : Result Void) (p : Promise Void) → fulfill_void_with o p ≡ fulfill_with o p
unfolding fulfill_void_with fulfill_with
fulfill_void_with-fulfill_with (returned u) p =
    catch_void_lem (set_void p) ∙ ap catch_all (set_void_lem p)
fulfill_void_with-fulfill_with (threw e) p = set_exception_void_lem e p
