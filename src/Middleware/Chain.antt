-- ===== src/Middleware/Chain.antt =====
-- How the middlewares of include/http/middleware.hpp nest.
use http_web_framework.Prelude.{Bool, arith, if◌then◌else◌, ◌&&◌, ◌≡◌}
use http_web_framework.Request.{Request}
use http_web_framework.Response.{Response}
use http_web_framework.Text.{Bytes}
use http_web_framework.Middleware.{
  Next, Middleware, conditional_middleware, handle_lambda, lambda_middleware, without_next,
}

-- Conditions around a middleware may be put together: one with both conditions does what two nested
-- ones do.
pub conditional_middleware_nested :
    (m : Middleware) (inner outer : Request → Bool) (request : Request) (response : Response)
    (next : Next)
    → (conditional_middleware (conditional_middleware m inner) outer).handle request response next
      ≡ (conditional_middleware m (λ r. outer r && inner r)).handle request response next
unfolding conditional_middleware
conditional_middleware_nested m inner outer request response next = ground arith

-- Around a handler that does not get `next`, the chain goes on in every case, behind the handler if
-- the condition holds: no handler of that form can stop a request.
pub conditional-lambda_middleware :
    (handler : Request → Response → Response) (name : Bytes) (condition : Request → Bool)
    (request : Request) (response : Response) (next : Next)
    → (conditional_middleware (lambda_middleware (without_next handler) name) condition).handle
        request response next
      ≡ next (if condition request then handler request response else response)
unfolding conditional_middleware lambda_middleware handle_lambda
conditional-lambda_middleware handler name condition request response next = ground arith
