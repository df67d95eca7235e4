-- ===== src/Future/Units.antt =====
-- The specialisation of Future for `void` of include/async/future.hpp.
use http_web_framework.Prelude.{Bool, false, none, some, true}
use http_web_framework.Text.{codes}
use http_web_framework.Throwing.{Result, Void, runtime_error, threw}
use http_web_framework.Future.{Future, FutureStatus, deferred, ready, timeout}

unfoldable pub get_void : Future Void → Result Void × Future Void
get_void none = (threw (runtime_error (codes "Future is not valid")), none)
get_void (some outcome) = (outcome, none)

unfoldable pub wait_for_void : FutureStatus → Future Void → FutureStatus
wait_for_void status none = deferred
wait_for_void status (some outcome) = status

unfoldable pub wait_until_void : FutureStatus → Future Void → FutureStatus
wait_until_void status none = deferred
wait_until_void status (some outcome) = status

unfoldable pub is_ready_void : FutureStatus → Future Void → Bool
is_ready_void status future = elim (wait_for_void status future) [
  | ready ↦ true
  | timeout ↦ false
  | deferred ↦ false
]
