-- ===== src/CircuitBreaker/Accounts.antt =====
-- What execute of include/resilience/circuit_breaker.hpp records, and what its bulkhead holds.
use http_web_framework.Prelude.{
  Bool, Bool-cases, ap, arith, false, if◌then◌else◌, inl, inr, refl, suc, true, ℕ, ◌-◌, ◌∙◌, ◌≡◌,
}
use http_web_framework.Throwing.{Action, Exception, Result, is_std, returned, threw}
use http_web_framework.CircuitBreaker.{
  Breaker, FailureType, Operations, circuit_open, exception, execute, execute_internal, finish_call,
  guarded_call, handle_exception, in_guard, is_call_permitted, pass_bulkhead, predicate_failed,
  timed_out, timeout_duration,
}

module _ {W R : Type 0} (ops : Operations W R) where
  open ops use {record_success, record_failure, acquire, release, race_timeout}

  -- A count of the records, kept in the world, which each recording raises by one.
  pub record Counts (recorded : W → ℕ) : Type 0 where
    pub on_success :
        (d : ℕ) (b : Breaker W) → recorded (record_success d b).world ≡ suc (recorded b.world)
    pub on_failure :
        (t : FailureType) (d : ℕ) (b : Breaker W)
        → recorded (record_failure t d b).world ≡ suc (recorded b.world)

  -- A function that records nothing itself, and throws exceptions of the standard class only.
  pub record IsPlain (recorded : W → ℕ) (run : Action (Breaker W) R) : Type 0 where
    pub unrecorded : (b : Breaker W) → recorded (run b).1.world ≡ recorded b.world
    pub standard : (b : Breaker W) (e : Exception) → (run b).0 ≡ threw e → is_std e ≡ true

  module _ (recorded : W → ℕ) (counts : Counts recorded) where
    in_guard_counts :
        (p : Bool × ℕ) (b : Breaker W)
        → recorded (in_guard ops p b).1.world
          ≡ (if (in_guard ops p b).0 then recorded b.world else suc (recorded b.world))
    unfolding in_guard
    in_guard_counts (true, count) b = refl
    in_guard_counts (false, count) b =
        counts.on_failure predicate_failed 0 (record b { concurrent_calls = count })

    pass_bulkhead_counts :
        (b : Breaker W)
        → recorded (pass_bulkhead ops b).1.world
          ≡ (if (pass_bulkhead ops b).0 then recorded b.world else suc (recorded b.world))
    unfolding pass_bulkhead
    pass_bulkhead_counts b = elim (Bool-cases b.bulkhead_enabled) [
      | inl on ↦
          simp (on) (in_guard_counts (acquire b.concurrent_calls b.config.max_concurrent_calls) b)
      | inr off ↦ simp (off)
    ]

    handle_exception_counts :
        (start limit : ℕ) (e : Exception) (b : Breaker W)
        → is_std e ≡ true
        → recorded (handle_exception ops start limit e b).1.world ≡ suc (recorded b.world)
    unfolding handle_exception
    handle_exception_counts start limit e b std = ground (
      arith,
      counts.on_failure timed_out (b.clock - start) b,
      counts.on_failure exception (b.clock - start) b,
      counts.on_success (b.clock - start) b,
    )

    finish_call_counts :
        (start limit : ℕ) (r : Result R) (b : Breaker W)
        → ((e : Exception) → r ≡ threw e → is_std e ≡ true)
        → recorded (finish_call ops start limit r b).1.world ≡ suc (recorded b.world)
    unfolding finish_call
    finish_call_counts start limit (returned v) b h = counts.on_success (b.clock - start) b
    finish_call_counts start limit (threw e) b h =
        handle_exception_counts start limit e b (h e refl)

    run_counts :
        (start limit : ℕ) (run : Action (Breaker W) R) (b : Breaker W)
        → IsPlain recorded run
        → recorded (let (r, b') = run b in (finish_call ops start limit r b').1).world
          ≡ suc (recorded b.world)
    run_counts start limit run b plain =
        finish_call_counts start limit (run b).0 (run b).1 (plain.standard b)
        ∙ ap suc (plain.unrecorded b)

    guarded_call_counts :
        (start limit : ℕ) (func : Action (Breaker W) R) (b : Breaker W)
        → IsPlain recorded func
        → IsPlain recorded (race_timeout limit func)
        → recorded (guarded_call ops start limit func b).1.world ≡ suc (recorded b.world)
    unfolding guarded_call
    guarded_call_counts start limit func b plain raced = elim (Bool-cases b.config.enable_timeout) [
      | inl on ↦ simp (on) (run_counts start limit (race_timeout limit func) b raced)
      | inr off ↦ simp (off) (run_counts start limit func b plain)
    ]

    -- Every call is recorded once: refused by the state or by the bulkhead, returned, timed out,
    -- failed, or rethrown, if the function (alone and in the race with its timeout) records nothing
    -- itself and throws nothing but exceptions below std::exception.
    pub execute_counts :
        (func : Action (Breaker W) R) (b : Breaker W)
        → IsPlain recorded func
        → ((limit : ℕ) → IsPlain recorded (race_timeout limit func))
        → recorded (execute ops func b).1.world ≡ suc (recorded b.world)
    unfolding execute execute_internal
    execute_counts func b plain raced =
        let b' = (pass_bulkhead ops b).1 in
        let passed = pass_bulkhead_counts b in
        elim (Bool-cases (is_call_permitted ops b)) [
          | inr closed_off ↦ simp (closed_off) (counts.on_failure circuit_open 0 b)
          | inl permitted ↦ elim (Bool-cases (pass_bulkhead ops b).0) [
            | inr out ↦ simp (permitted, out) (passed ∙ simp (out))
            | inl admitted ↦
                simp (permitted, admitted)
                  (guarded_call_counts b'.clock (timeout_duration ops b') func b' plain (raced _)
                    ∙ ap suc (passed ∙ simp (admitted)))
          ]
        ]

  in_guard_unheld :
      (p : Bool × ℕ) (b : Breaker W)
      → p.0 ≡ true
      → release true p.1 ≡ b.concurrent_calls
      → in_guard ops p b ≡ (true, b)
  unfolding in_guard
  in_guard_unheld (true, count) b admitted undone =
      ap (λ n. (true, record b { concurrent_calls = n })) undone
  in_guard_unheld (false, count) b admitted undone = cc

  pass_bulkhead_unheld :
      (b : Breaker W)
      → (acquire b.concurrent_calls b.config.max_concurrent_calls).0 ≡ true
      → release true (acquire b.concurrent_calls b.config.max_concurrent_calls).1
        ≡ b.concurrent_calls
      → pass_bulkhead ops b ≡ (true, b)
  unfolding pass_bulkhead
  pass_bulkhead_unheld b admitted undone = elim (Bool-cases b.bulkhead_enabled) [
    | inl on ↦ simp (on) (
        in_guard_unheld (acquire b.concurrent_calls b.config.max_concurrent_calls) b admitted
          undone)
    | inr off ↦ simp (off)
  ]

  -- The bulkhead holds no place while the function runs: where acquire admits the call and release
  -- gives the place back, a permitted call runs the function from the very state that it was made in,
  -- with the count of concurrent calls as it was, as if the bulkhead were not there.
  pub execute-guarded_call :
      (func : Action (Breaker W) R) (b : Breaker W)
      → is_call_permitted ops b ≡ true
      → (acquire b.concurrent_calls b.config.max_concurrent_calls).0 ≡ true
      → release true (acquire b.concurrent_calls b.config.max_concurrent_calls).1
        ≡ b.concurrent_calls
      → execute ops func b ≡ guarded_call ops b.clock (timeout_duration ops b) func b
  unfolding execute execute_internal
  execute-guarded_call func b permitted admitted undone =
      simp (permitted, pass_bulkhead_unheld b admitted undone)
