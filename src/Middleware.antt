-- ===== src/Middleware.antt =====
-- include/http/middleware.hpp: the classes Middleware, LambdaMiddleware and ConditionalMiddleware.
-- The response is passed along, and `next` is the rest of the chain; the virtual functions that the
-- header only declares, and the asynchronous ones, are left out.
pub mod Chain
pub mod Async
use http_web_framework.Prelude.{Bool, [], false, if◌then◌else◌, true, ℕ, ◌∷◌}
use http_web_framework.Text.{Bytes, codes, stream}
use http_web_framework.Request.{Request}
use http_web_framework.Response.{Response}

-- `function<void()> next`, the rest of the chain, as a function of the response that it may change.
abbrev pub Next : Type 0
Next = Response → Response

-- The virtual functions that every middleware has, with their default values for `priority`,
-- `is_async` and `should_execute`.
pub record Middleware : Type 0 where
  pub handle : Request → Response → Next → Response
  pub name : Bytes
  pub priority : ℕ
  pub is_async : Bool
  pub should_execute : Request → Bool

-- `std::is_invocable_v<Handler, const Request&, Response&, function<void()>>` decides at compile
-- time which of the two forms a handler has.
pub data Handler : Type 0 where
  with_next : (Request → Response → Next → Response) → Handler
  without_next : (Request → Response → Response) → Handler

-- `LambdaMiddleware<Handler>::handle`
unfoldable pub handle_lambda : Handler → Request → Response → Next → Response
handle_lambda (with_next handler) request response next = handler request response next
handle_lambda (without_next handler) request response next = next (handler request response)

-- `LambdaMiddleware`, which make_middleware returns.
unfoldable pub lambda_middleware : Handler → Bytes → Middleware
lambda_middleware handler name = record {
  handle = handle_lambda handler;
  name = name;
  priority = 0;
  is_async = false;
  should_execute = λ r. true;
}

-- `ConditionalMiddleware`
unfoldable pub conditional_middleware : Middleware → (Request → Bool) → Middleware
conditional_middleware middleware condition = record {
  handle = λ request response next.
      if condition request then middleware.handle request response next else next response;
  name = stream (codes "conditional(" ∷ middleware.name ∷ codes ")" ∷ []);
  priority = 0;
  is_async = middleware.is_async;
  should_execute = λ r. true;
}
