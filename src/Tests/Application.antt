-- ===== src/Tests/Application.antt =====
-- Instances of the theorems on the demonstration server.
use http_web_framework.Prelude.{List, [], arith, min, refl, ◌++◌, ◌∷◌, ◌≡◌}
use http_web_framework.Text.{Bytes, codes, starts_with, tolower}
use http_web_framework.Types.{Endpoint}
use http_web_framework.Fields.{lookup}
use http_web_framework.Request.{
  Request, normalize_header_name as normalize_request_name, remove_header as remove_request_header,
  set_header as set_request_header,
}
use http_web_framework.Response.Pages.{IsErrorPage}
use http_web_framework.Middleware.{Next}
use http_web_framework.Demo.Middlewares.{auth_middleware}
use http_web_framework.Demo.Admission.{Arrival, admitted, requests_of, serve_all}
use http_web_framework.Demo.Windows.{admitted_minute}
use http_web_framework.Demo.Access.{auth_middleware-IsErrorPage}
use http_web_framework.Tests.Requests.{blank}
use http_web_framework.Tests.Responses.{plain}

-- Every endpoint has the same text, and every handler answers 200.
abbrev one_text : Endpoint → Bytes
one_text e = codes "127.0.0.1"

abbrev ok_handler : Next
ok_handler r = record r { status_code = 200 }

abbrev refused_handler : Next
refused_handler r = record r { status_code = 403 }

abbrev first_request : Arrival
first_request = record { request = blank; now = 5 }

abbrev two_requests : List Arrival
two_requests = first_request ∷ record { request = blank; now = 70 } ∷ []

admitted_minute_example :
    admitted (codes "127.0.0.1") (serve_all one_text ok_handler two_requests [])
    ≡ min 100 (requests_of one_text ok_handler (codes "127.0.0.1") two_requests)
unfolding lookup
admitted_minute_example =
    admitted_minute one_text ok_handler (codes "127.0.0.1") 0 two_requests [] (λ r. ground arith)
      refl (ground arith, ground arith, (ground arith, ground arith, tt))

auth_middleware-IsErrorPage_example :
    (auth_middleware
        (set_request_header (codes "AUTHORIZATION") (codes "Bearer " ++ codes "t") blank)
        ok_handler
        plain
      ≡ ok_handler plain)
    × IsErrorPage 401
        (codes "Unauthorized")
        (auth_middleware (remove_request_header (codes "AUTHORIZATION") blank) ok_handler plain)
    × IsErrorPage 401 (codes "Unauthorized") (
        auth_middleware
          (set_request_header (codes "AUTHORIZATION") (codes "Basic t") blank)
          ok_handler
          plain)
    × (auth_middleware (remove_request_header (codes "AUTHORIZATION") blank) ok_handler plain
        ≡ auth_middleware
            (remove_request_header (codes "AUTHORIZATION") blank)
            refused_handler
            plain)
    × (auth_middleware
          (set_request_header (codes "AUTHORIZATION") (codes "Basic t") blank)
          ok_handler
          plain
        ≡ auth_middleware
            (set_request_header (codes "AUTHORIZATION") (codes "Basic t") blank)
            refused_handler
            plain)
unfolding normalize_request_name tolower starts_with
auth_middleware-IsErrorPage_example =
    auth_middleware-IsErrorPage (codes "AUTHORIZATION") (codes "t") (codes "Basic t") blank
      ok_handler refused_handler plain refl refl

abbrev upgrade : Request
upgrade = record blank {
  headers =
      record { name = codes "upgrade"; value = codes "websocket" }
      ∷ record { name = codes "connection"; value = codes "Upgrade" }
      ∷ record { name = codes "sec-websocket-key"; value = codes "k" }
      ∷ record { name = codes "sec-websocket-version"; value = codes "13" }
      ∷ [];
}
