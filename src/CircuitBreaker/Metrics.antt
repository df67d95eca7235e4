-- ===== src/CircuitBreaker/Metrics.antt =====
-- ExecutionResult, CallResult<void> and CircuitBreakerMetrics of
-- include/resilience/circuit_breaker.hpp. Times and durations are numbers of the clock's units, and a
-- `double` is kept as its bits.
use http_web_framework.Prelude.{Bool, List, Option, [], false, none, some, true, ℕ, ◌-◌, ◌^◌}
use http_web_framework.Text.{Bytes}
use http_web_framework.CircuitBreaker.{CircuitState, FailureType}

-- ExecutionResult, and CallResult<void>, which has the same members and constructors.
pub record ExecutionResult : Type 0 where
  pub success : Bool
  pub failure_type : Option FailureType
  pub execution_time : ℕ
  pub error_message : Bytes

unfoldable pub execution_success : ExecutionResult
execution_success = record {
  success = true;
  failure_type = none;
  execution_time = 0;
  error_message = [];
}

unfoldable pub execution_failure : FailureType → Bytes → ExecutionResult
execution_failure type message = record {
  success = false;
  failure_type = some type;
  execution_time = 0;
  error_message = message;
}

pub record CircuitBreakerMetrics : Type 0 where
  pub current_state : CircuitState
  pub state_changed_at : ℕ
  pub time_in_current_state : ℕ
  pub total_requests : ℕ
  pub successful_requests : ℕ
  pub failed_requests : ℕ
  pub timeout_requests : ℕ
  pub circuit_open_requests : ℕ
  pub success_rate : ℕ
  pub failure_rate : ℕ
  pub average_execution_time : ℕ
  pub max_execution_time : ℕ
  pub min_execution_time : ℕ
  pub consecutive_failures : ℕ
  pub consecutive_successes : ℕ
  pub last_failure_time : ℕ
  pub last_success_time : ℕ
  pub recent_calls : List (ℕ × Bool)

-- The bits of 1.0, and `duration_t::max()`.
abbrev pub one : ℕ
one = 4607182418800017408

abbrev pub max_duration : ℕ
max_duration = 2 ^ 63 - 1

unfoldable pub reset : CircuitBreakerMetrics → CircuitBreakerMetrics
reset metrics = record metrics {
  total_requests = 0;
  successful_requests = 0;
  failed_requests = 0;
  timeout_requests = 0;
  circuit_open_requests = 0;
  success_rate = one;
  failure_rate = 0;
  average_execution_time = 0;
  max_execution_time = 0;
  min_execution_time = max_duration;
  consecutive_failures = 0;
  consecutive_successes = 0;
  recent_calls = [];
}
