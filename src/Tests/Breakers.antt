-- ===== src/Tests/Breakers.antt =====
-- Instances of the theorems on the circuit breaker, with a counter of records as the world.
use http_web_framework.Prelude.{[], arith, false, ltb, refl, suc, true, ℕ, ◌+◌, ◌-◌, ◌≡◌}
use http_web_framework.Throwing.{Action, is_std, runtime_error, threw}
use http_web_framework.CircuitBreaker.{Breaker, Operations, closed, execute}
use http_web_framework.CircuitBreaker.Accounts.{execute_counts}

abbrev counted : Breaker ℕ → Breaker ℕ
counted b = record b { world = suc b.world }

abbrev counting_operations : Operations ℕ ℕ
counting_operations = record {
  record_success = λ d b. counted b;
  record_failure = λ t d b. counted b;
  should_attempt_reset = λ b. true;
  get_adaptive_timeout = λ b. 100;
  add_jitter = λ d b. d + 1;
  acquire = λ n most. (ltb n most, n + 1);
  release = λ admitted n. n - 1;
  race_timeout = λ limit m. m;
  failure_predicate = λ e. true;
  text = λ e. [];
}

abbrev closed_breaker : Breaker ℕ
closed_breaker = record {
  config = record {
    timeout = 30;
    success_threshold = 3;
    enable_timeout = true;
    max_concurrent_calls = 10;
  };
  current_state = closed;
  consecutive_successes = 0;
  concurrent_calls = 4;
  adaptive_timeout_enabled = false;
  jitter_enabled = false;
  bulkhead_enabled = true;
  clock = 1000;
  world = 0;
}

abbrev slow_call : Action (Breaker ℕ) ℕ
slow_call b = (threw (runtime_error []), record b { clock = b.clock + 50 })

execute_counts_example : (execute counting_operations slow_call closed_breaker).1.world ≡ 1
unfolding is_std
execute_counts_example =
    execute_counts counting_operations (λ w. w)
      (record { on_success = λ d b. refl; on_failure = λ t d b. refl }) slow_call closed_breaker
      (record { unrecorded = λ b. refl; standard = λ b e h. ground arith })
      (λ limit. record { unrecorded = λ b. refl; standard = λ b e h. ground arith })
