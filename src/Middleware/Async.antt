-- ===== src/Middleware/Async.antt =====
-- AsyncLambdaMiddleware of include/http/middleware.hpp: a handler that is a coroutine, with the
-- response as the state. The handler and the rest of the chain are known by what they do to the
-- response and what they throw.
use http_web_framework.Throwing.{Action, Result, Void, returned, ◌>>◌}
use http_web_framework.Request.{Request}
use http_web_framework.Response.{Response}

-- `std::is_invocable_v` decides at compile time which of the two forms a handler has.
pub data AsyncHandler : Type 0 where
  awaits_next : (Request → Action Response Void → Action Response Void) → AsyncHandler
  without_next : (Request → Action Response Void) → AsyncHandler

unfoldable pub handle_async : AsyncHandler → Request → Action Response Void → Action Response Void
handle_async (awaits_next handler) request next = handler request next
handle_async (without_next handler) request next = handler request >> next

-- `handle` waits for the task and does not ask for its outcome.
unfoldable pub handle :
    AsyncHandler → Request → Action Response Void → Response → Result Void × Response
handle handler request next response = (returned tt, (handle_async handler request next response).1)
