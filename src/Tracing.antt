-- ===== src/Tracing.antt =====
-- include/tracing/tracer.hpp: attributes of a span, and the calls of a function within a span. What
-- is declared there without a body (starting and ending spans, their status) is the parameter
-- Spans (the scope's destructor among it); the span in hand is part of the state.
pub mod Ended
use http_web_framework.Prelude.{Bool, false, if◌then◌else◌, ℕ}
use http_web_framework.Text.{Bytes, codes}
use http_web_framework.Fields.{HashMap, insert}
use http_web_framework.Throwing.{Action, catch_any, modify, pure, raise, ◌>>=◌, ◌>>◌}

pub data SpanKind : Type 0 where
  internal server client producer consumer : SpanKind

-- A value with its type: a 64-bit number by its residue, a floating-point number by the type F.
pub data Attribute (F : Type 0) : Type 0 where
  text_value : Bytes → Attribute F
  bool_value : Bool → Attribute F
  int_value : ℕ → Attribute F
  double_value : F → Attribute F

pub record Span (F : Type 0) : Type 0 where
  pub recording : Bool
  pub attributes : HashMap (Attribute F)

unfoldable pub set_attribute : {F : Type 0} → Bytes → Attribute F → Span F → Span F
set_attribute key value span =
    if span.recording then record span { attributes = insert key value span.attributes } else span

pub record Spans (S : Type 0) : Type 0 where
  pub start_span : Bytes → SpanKind → S → S
  pub set_status : Bool → Bytes → S → S
  pub end_span : S → S
  pub end_scope : S → S

module _ {S : Type 0} (spans : Spans S) where
  open spans use {start_span, set_status, end_span, end_scope}

  -- `set_status(false, "Exception occurred")`
  unfoldable pub mark_failed : S → S
  mark_failed s = set_status false (codes "Exception occurred") s

  unfoldable pub with_span : {R : Type 0} → Bytes → SpanKind → Action S R → Action S R
  with_span name kind func s =
      catch_any (do result ← func; modify end_span; pure result)
        (λ e. do modify mark_failed; modify end_span; raise e) (start_span name kind s)

  -- The overload without a kind; start_span has the kind INTERNAL then.
  unfoldable pub with_named_span : {R : Type 0} → Bytes → Action S R → Action S R
  with_named_span name func s =
      catch_any (do result ← func; modify end_span; pure result)
        (λ e. do modify mark_failed; modify end_span; raise e) (start_span name internal s)

  -- The destructor of the span's scope runs behind the handler.
  unfoldable pub with_active_span : {R : Type 0} → Bytes → SpanKind → Action S R → Action S R
  with_active_span name kind func s =
      let (r, s') = catch_any func (λ e. do modify mark_failed; raise e) (start_span name kind s) in
      (r, end_scope s')
