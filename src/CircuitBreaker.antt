-- ===== src/CircuitBreaker.antt =====
-- include/resilience/circuit_breaker.hpp: the class CircuitBreaker, its results, and
-- execute_internal. What is declared there without a body is the parameter Operations.
pub mod Metrics
pub mod Accounts
pub mod Failures
use http_web_framework.Prelude.{
  Bool, Option, [], false, if◌then◌else◌, is_some, leb, ltb, none, not, some, true, ℕ, ◌&&◌, ◌-◌,
}
use http_web_framework.Text.{Bytes, codes}
use http_web_framework.Throwing.{Action, Exception, Result, is_std, returned, threw, what}

pub data CircuitState : Type 0 where
  closed open_state half_open : CircuitState

pub data FailureType : Type 0 where
  timed_out exception predicate_failed circuit_open : FailureType

-- Durations and time points are numbers of milliseconds.
pub record CallResult (R : Type 0) : Type 0 where
  pub success : Bool
  pub value : Option R
  pub failure_type : Option FailureType
  pub execution_time : ℕ
  pub error_message : Bytes

module _ {R : Type 0} where
  -- `CallResult::success`
  unfoldable pub succeeded : R → CallResult R
  succeeded v = record {
    success = true;
    value = some v;
    failure_type = none;
    execution_time = 0;
    error_message = [];
  }

  -- `CallResult::failure`
  unfoldable pub failed : FailureType → Bytes → CallResult R
  failed t message = record {
    success = false;
    value = none;
    failure_type = some t;
    execution_time = 0;
    error_message = message;
  }

  unfoldable pub has_value : CallResult R → Bool
  has_value r = r.success && is_some r.value

-- The members of Config that execute_internal and is_call_permitted read.
pub record Config : Type 0 where
  pub timeout : ℕ
  pub success_threshold : ℕ
  pub enable_timeout : Bool
  pub max_concurrent_calls : ℕ

-- The breaker's members, the time of the steady clock, and all else that the calls change (metrics,
-- callbacks, and what the guarded functions do).
pub record Breaker (W : Type 0) : Type 0 where
  pub config : Config
  pub current_state : CircuitState
  pub consecutive_successes : ℕ
  pub concurrent_calls : ℕ
  pub adaptive_timeout_enabled : Bool
  pub jitter_enabled : Bool
  pub bulkhead_enabled : Bool
  pub clock : ℕ
  pub world : W

-- The functions with no body: recording, the tests and durations, the constructor of SemaphoreGuard
-- (whether it acquired, and the counter) and its destructor, and the race of a function with a
-- timeout by when_any. `failure_predicate` is the constructor's argument; the texts are those of the
-- exceptions of the library.
pub record Operations (W : Type 0) (R : Type 0) : Type 0 where
  pub record_success : ℕ → Breaker W → Breaker W
  pub record_failure : FailureType → ℕ → Breaker W → Breaker W
  pub should_attempt_reset : Breaker W → Bool
  pub get_adaptive_timeout : Breaker W → ℕ
  pub add_jitter : ℕ → Breaker W → ℕ
  pub acquire : ℕ → ℕ → Bool × ℕ
  pub release : Bool → ℕ → ℕ
  pub race_timeout : ℕ → Action (Breaker W) R → Action (Breaker W) R
  pub failure_predicate : Exception → Bool
  pub text : Exception → Bytes

module _ {W R : Type 0} (ops : Operations W R) where
  open ops use {
    record_success, record_failure, should_attempt_reset, get_adaptive_timeout, add_jitter, acquire,
    release, race_timeout, failure_predicate, text,
  }

  unfoldable pub is_call_permitted : Breaker W → Bool
  is_call_permitted b = elim b.current_state [
    | closed ↦ true
    | open_state ↦ should_attempt_reset b
    | half_open ↦ ltb b.consecutive_successes b.config.success_threshold
  ]

  -- Between the constructor of the guard, whose outcome is given, and its destructor.
  unfoldable pub in_guard : Bool × ℕ → Breaker W → Bool × Breaker W
  in_guard (true, count) b = (true, record b { concurrent_calls = release true count })
  in_guard (false, count) b =
      let refused = record_failure predicate_failed 0 (record b { concurrent_calls = count }) in
      (false, record refused { concurrent_calls = release false refused.concurrent_calls })

  -- The `if (bulkhead_enabled_)` block: the guard is a variable of the block, so that its destructor
  -- runs at the end of the block, before the function is called.
  unfoldable pub pass_bulkhead : Breaker W → Bool × Breaker W
  pass_bulkhead b =
      if b.bulkhead_enabled
      then in_guard (acquire b.concurrent_calls b.config.max_concurrent_calls) b
      else (true, b)

  unfoldable pub timeout_duration : Breaker W → ℕ
  timeout_duration b =
      let timeout =
        if b.adaptive_timeout_enabled then get_adaptive_timeout b else b.config.timeout in
      if b.jitter_enabled then add_jitter timeout b else timeout

  -- The `catch (const std::exception& e)` block.
  unfoldable pub handle_exception : ℕ → ℕ → Exception → Action (Breaker W) (CallResult R)
  handle_exception start limit e b =
      let execution_time = b.clock - start in
      if not (is_std e)
      then (threw e, b)
      else if leb limit execution_time
      then (
        returned (failed timed_out (codes "Operation timed out")),
        record_failure timed_out execution_time b,
      )
      else if failure_predicate e
      then (returned (failed exception (what text e)), record_failure exception execution_time b)
      else (threw e, record_success execution_time b)

  -- What follows the function's return or throw; record_success is taken not to throw.
  unfoldable pub finish_call : ℕ → ℕ → Result R → Action (Breaker W) (CallResult R)
  finish_call start limit (returned v) b =
      (returned (succeeded v), record_success (b.clock - start) b)
  finish_call start limit (threw e) b = handle_exception start limit e b

  -- The `try` block.
  unfoldable pub guarded_call : ℕ → ℕ → Action (Breaker W) R → Action (Breaker W) (CallResult R)
  guarded_call start limit func b =
      let (r, b') = (if b.config.enable_timeout then race_timeout limit func else func) b in
      finish_call start limit r b'

  unfoldable pub execute_internal : Action (Breaker W) R → Action (Breaker W) (CallResult R)
  execute_internal func b =
      let (admitted, b') = pass_bulkhead b in
      if not (is_call_permitted b)
      then (
        returned (failed circuit_open (codes "Circuit breaker is open")),
        record_failure circuit_open 0 b,
      )
      else if not admitted
      then (returned (failed predicate_failed (codes "Max concurrent calls exceeded")), b')
      else guarded_call b'.clock (timeout_duration b') func b'

  unfoldable pub execute : Action (Breaker W) R → Action (Breaker W) (CallResult R)
  execute func = execute_internal func
