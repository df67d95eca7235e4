-- ===== src/Demo/RateLimit.antt =====
-- rate_limit_middleware of src/main.cpp. Its static table is passed along, and its time points are
-- numbers of milliseconds; the text of an endpoint (`Endpoint::to_string`, declared in the
-- repository and without a body) is a parameter. The middleware holds its mutex to its end, also
-- while `next` runs, so that requests are handled one after the other; a `next` that came back to
-- this middleware would lock the mutex twice, and `next` has no access to the table.
use http_web_framework.Prelude.{if◌then◌else◌, leb, ltb, none, some, ℕ, ◌+◌, ◌-◌, ◌/◌}
use http_web_framework.Text.{Bytes, codes}
use http_web_framework.Types.{Endpoint}
use http_web_framework.Fields.{HashMap, insert, lookup}
use http_web_framework.Request.{Request}
use http_web_framework.Response.{Response}
use http_web_framework.Response.Body.{send_error}
use http_web_framework.Middleware.{Next}

-- `hash_map<string, std::pair<int, timestamp_t>>`
abbrev pub RateLimits : Type 0
RateLimits = HashMap (ℕ × ℕ)

-- `duration_cast<minutes>(now - last)`; a negative difference gives a count that is not above 0.
abbrev pub minutes_between : ℕ → ℕ → ℕ
minutes_between now last = (now - last) / 60000

unfoldable pub rate_limit_middleware :
    (Endpoint → Bytes) → ℕ → Request → Next → RateLimits → Response → Response × RateLimits
rate_limit_middleware endpoint_text now req next rate_limits res =
    let client_ip = endpoint_text req.remote_endpoint in
    elim (lookup client_ip rate_limits) [
      | some (count, last_request) ↦
          if ltb (minutes_between now last_request) 1
          then (if leb 100 count
              then (send_error 429 (codes "Too Many Requests") res, rate_limits)
              else (next res, insert client_ip (count + 1, last_request) rate_limits))
          else (next res, insert client_ip (1, now) rate_limits)
      | none ↦ (next res, insert client_ip (1, now) rate_limits)
    ]
