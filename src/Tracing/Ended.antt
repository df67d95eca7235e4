-- ===== src/Tracing/Ended.antt =====
-- The spans of with_span and with_active_span of include/tracing/tracer.hpp are ended.
use http_web_framework.Throwing.{Action, Result, returned, threw}
use http_web_framework.Tracing.{Spans, mark_failed}

module _ {S R : Type 0} (spans : Spans S) (func : Action S R) where
  open spans use {start_span, end_span, end_scope}

  -- The state behind the function, with the span's status if it threw.
  unfoldable pub with_status : Result R → S → S
  with_status (returned v) s = s
  with_status (threw e) s = mark_failed spans s
