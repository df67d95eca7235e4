-- ===== src/Future.antt =====
-- include/async/future.hpp: the class Future over std::future. A future that is valid is known by
-- the outcome that it will have; how far it is at some time is a parameter of the calls that wait for
-- a limited time. The functions that are chained change nothing that is shared.
pub mod Units
use mathlib.Core.Option
use http_web_framework.Prelude.{Bool, Option, false, is_some, map, none, some, true}
use http_web_framework.Text.{codes}
use http_web_framework.Throwing.{Exception, Result, returned, runtime_error, threw}

pub data FutureStatus : Type 0 where
  ready timeout deferred : FutureStatus

-- `none` is a future that is not valid: default-constructed, moved from, or read already.
abbrev pub Future : Type 0 → Type 0
Future T = Option (Result T)

module _ {T : Type 0} where
  -- The outcome, and the future behind the call.
  unfoldable pub get : Future T → Result T × Future T
  get none = (threw (runtime_error (codes "Future is not valid")), none)
  get (some outcome) = (outcome, none)

  unfoldable pub valid : Future T → Bool
  valid future = is_some future

  -- `status` is what wait_for (or wait_until) of std::future says.
  unfoldable pub wait_for : FutureStatus → Future T → FutureStatus
  wait_for status none = deferred
  wait_for status (some outcome) = status

  unfoldable pub wait_until : FutureStatus → Future T → FutureStatus
  wait_until status none = deferred
  wait_until status (some outcome) = status

  unfoldable pub is_ready : FutureStatus → Future T → Bool
  is_ready status future = elim (wait_for status future) [
    | ready ↦ true
    | timeout ↦ false
    | deferred ↦ false
  ]

  -- `get()` of the std::future that was moved into the thread; that of one that is not valid is
  -- undefined.
  abbrev pub get_moved : Future T → Option (Result T)
  get_moved this = this

-- The thread of `then`, by what it puts into the promise.
unfoldable pub then_outcome : {T R : Type 0} → (T → Result R) → Result T → Result R
then_outcome func (returned v) = func v
then_outcome func (threw e) = threw e

-- The new future, and this one, whose std::future was moved into the thread; `none` if this one was
-- not valid.
unfoldable pub then_future :
    {T R : Type 0} → (T → Result R) → Future T → Option (Future R × Future T)
then_future func this =
    Option.map (λ outcome. (some (then_outcome func outcome), none)) (get_moved this)

-- The thread of `catch_exception`.
unfoldable pub catch_outcome : {T : Type 0} → (Exception → Result T) → Result T → Result T
catch_outcome func (returned v) = returned v
catch_outcome func (threw e) = func e

unfoldable pub catch_exception :
    {T : Type 0} → (Exception → Result T) → Future T → Option (Future T × Future T)
catch_exception func this =
    Option.map (λ outcome. (some (catch_outcome func outcome), none)) (get_moved this)
