-- ===== src/Tests/Traces.antt =====
-- Instances of the theorems on spans.
use http_web_framework.Prelude.{ℕ, ◌+◌, ◌-◌}
use http_web_framework.Throwing.{Action, Void, threw, user_exception}
use http_web_framework.Tracing.{Spans}

-- Spans as the number of those that are open, and of those that failed.
abbrev counted_spans : Spans (ℕ × ℕ)
counted_spans = record {
  start_span = λ name kind s. (s.0 + 1, s.1);
  set_status = λ ok message s. (s.0, s.1 + 1);
  end_span = λ s. (s.0 - 1, s.1);
  end_scope = λ s. (s.0 - 1, s.1);
}

abbrev failing_call : Action (ℕ × ℕ) Void
failing_call s = (threw (user_exception 1), s)
