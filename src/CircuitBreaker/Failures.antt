-- ===== src/CircuitBreaker/Failures.antt =====
-- What execute of include/resilience/circuit_breaker.hpp gives for a function that always throws.
use http_web_framework.Prelude.{Bool, Bool-cases, arith, inl, inr, not, true, ℕ, ◌≡◌}
use http_web_framework.Throwing.{Action, Exception, Result, returned, threw}
use http_web_framework.CircuitBreaker.{
  Breaker, CallResult, Operations, execute, execute_internal, failed, finish_call, guarded_call,
  handle_exception, pass_bulkhead, timeout_duration,
}

-- A call that throws, whatever the state.
unfoldable pub IsThrowing : {S A : Type 0} → Action S A → Type 0
IsThrowing {S} m = (s : S) → (e : Exception) × ((m s).0 ≡ threw e)

-- What is thrown, and a result that is a failure.
unfoldable pub is_failure : {R : Type 0} → Result (CallResult R) → Bool
is_failure (threw e) = true
is_failure (returned result) = not result.success

module _ {W R : Type 0} (ops : Operations W R) where
  open ops use {race_timeout}

  handle_exception_failure :
      (start limit : ℕ) (e : Exception) (b : Breaker W)
      → is_failure (handle_exception ops start limit e b).0 ≡ true
  unfolding handle_exception is_failure failed
  handle_exception_failure start limit e b = ground arith

  finish_call_failure :
      (start limit : ℕ) (r : Result R) (e : Exception) (b : Breaker W)
      → r ≡ threw e
      → is_failure (finish_call ops start limit r b).0 ≡ true
  unfolding finish_call
  finish_call_failure start limit (threw x) e b h = handle_exception_failure start limit x b
  finish_call_failure start limit (returned v) e b h = cc

  guarded_call_failure :
      (start limit : ℕ) (func : Action (Breaker W) R) (b : Breaker W)
      → IsThrowing func
      → IsThrowing (race_timeout limit func)
      → is_failure (guarded_call ops start limit func b).0 ≡ true
  unfolding guarded_call IsThrowing
  guarded_call_failure start limit func b throws raced = elim (Bool-cases b.config.enable_timeout) [
    | inl on ↦
        let (e, h) = raced b in
        simp (on) (finish_call_failure start limit _ e (race_timeout limit func b).1 h)
    | inr off ↦
        let (e, h) = throws b in simp (off) (finish_call_failure start limit _ e (func b).1 h)
  ]

  -- No function that always throws is a success.
  pub execute_failure :
      (func : Action (Breaker W) R) (b : Breaker W)
      → IsThrowing func
      → ((limit : ℕ) → IsThrowing (race_timeout limit func))
      → is_failure (execute ops func b).0 ≡ true
  unfolding execute execute_internal is_failure failed
  execute_failure func b throws raced =
      let b' = (pass_bulkhead ops b).1 in
      ground
        (arith, guarded_call_failure b'.clock (timeout_duration ops b') func b' throws (raced _))
