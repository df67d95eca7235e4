-- ===== src/Demo/Server.antt =====
-- The rest of src/main.cpp: the handlers that `main` writes as lambdas and async_handler, the
-- middleware that logs, and the loop of `main`. Clocks are parameters, and so are set_json_body of
-- Response, which has no body in the repository, and the text of a `double`.
pub mod Statistics
use mathlib.Core.Option
use http_web_framework.Prelude.{
  Bool, List, Option, [], false, if◌then◌else◌, map, none, not, some, true, ℕ, ◌++◌, ◌||◌, ◌∷◌,
}
use http_web_framework.Rounds.{look_until}
use http_web_framework.Throwing.{Result, Void, is_std, returned, threw}
use http_web_framework.Text.{Bytes, codes, stream, to_string}
use http_web_framework.Types.{Attribute, bool, double, int, method_code, str, to_string_ℤ}
use http_web_framework.Request.{Request}
use http_web_framework.Response.{Response}
use http_web_framework.Response.Body.{send_error}

module _ (double_text : ℕ → Bytes) where
  -- The visitor: a string in quotation marks, and std::to_string of the others.
  unfoldable pub visit_value : Attribute → Bytes
  visit_value (str v) = codes "\"" ++ (v ++ codes "\"")
  visit_value (int n) = to_string_ℤ n
  visit_value (double d) = double_text d
  visit_value (bool b) = if b then codes "1" else codes "0"

  -- The loop over the statistics, with `first` and `json`.
  unfoldable pub append_stats : List (Bytes × Attribute) → Bool → Bytes → Bytes
  append_stats [] first json = json
  append_stats ((key, value) ∷ stats) first json =
      let separated = if first then json else json ++ codes "," in
      let named = separated ++ (codes "\"" ++ (key ++ codes "\":")) in
      append_stats stats false (named ++ visit_value value)

  unfoldable pub stats_json : List (Bytes × Attribute) → Bytes
  stats_json stats = append_stats stats true (codes "{") ++ codes "}"

module _ (set_json_body : Bytes → Response → Response) where
  -- `milliseconds` is the system clock's time.
  unfoldable pub get_health : ℕ → Request → Response → Response
  get_health milliseconds req res =
      set_json_body
        (stream (
          codes "{\"status\": \"healthy\", \"timestamp\": \""
          ∷ to_string milliseconds
          ∷ codes "\"}"
          ∷ []))
        res

  -- Behind the sleep.
  unfoldable pub async_handler : ℕ → Request → Response → Response
  async_handler milliseconds req res =
      set_json_body
        (stream (
          codes "{\"message\": \"Async response\", \"timestamp\": \""
          ∷ to_string milliseconds
          ∷ codes "\"}"
          ∷ []))
        res

  unfoldable pub get_protected : Request → Response → Response
  get_protected req res =
      set_json_body (codes "{\"message\": \"Access granted to protected resource\"}") res

  unfoldable pub get_stats : (ℕ → Bytes) → List (Bytes × Attribute) → Request → Response → Response
  get_stats double_text stats req res = set_json_body (stats_json double_text stats) res

unfoldable pub fallback : Request → Response → Response
fallback req res = send_error 404 (codes "Endpoint not found") res

-- Behind the line on the error stream.
unfoldable pub error_handler : Request → Response → Response
error_handler req res = send_error 500 (codes "Internal server error") res

-- The lines that the middleware writes, around the rest of the chain; the two times of the system
-- clock and the duration are in milliseconds.
unfoldable pub logging_middleware :
    (started ended duration : ℕ)
    → Request
    → (Response → Response)
    → Response
    → Response × List Bytes
logging_middleware started ended duration req next res =
    let res' = next res in
    (
      res',
      stream (
            codes "["
            ∷ to_string started
            ∷ codes "] Request: "
            ∷ to_string (method_code req.method)
            ∷ codes " "
            ∷ req.uri
            ∷ [])
          ∷ stream (
              codes "["
              ∷ to_string ended
              ∷ codes "] Response: "
              ∷ to_string res'.status_code
              ∷ codes " ("
              ∷ to_string duration
              ∷ codes "ms)"
              ∷ [])
          ∷ [],
    )

-- The condition that ends the loop of `main`.
unfoldable pub leaves_loop : (shutdown_requested is_running : ℕ → Bool) → ℕ → Bool
leaves_loop shutdown_requested is_running k = shutdown_requested k || not (is_running k)

-- The try block of `main`: what the setup with `server.start()` came to, what the loop's condition
-- reads in each round, and what `server.stop()` with the output behind it came to. The reads and the
-- sleep of the loop do not throw.
unfoldable pub main_block :
    Result Bool → (shutdown_requested is_running : ℕ → Bool) → Result Void → ℕ → Option (Result ℕ)
main_block (threw e) shutdown_requested is_running stopped fuel = some (threw e)
main_block (returned false) shutdown_requested is_running stopped fuel = some (returned 1)
main_block (returned true) shutdown_requested is_running stopped fuel =
    elim (look_until (leaves_loop shutdown_requested is_running) fuel 0) [
      | none ↦ none
      | some k ↦ elim stopped [ returned _ ↦ some (returned 0) | threw e ↦ some (threw e) ]
    ]

-- `catch (const std::exception& e)`; another exception leaves `main`.
unfoldable pub catch_fatal : Result ℕ → Result ℕ
catch_fatal (returned code) = returned code
catch_fatal (threw e) = if is_std e then returned 1 else threw e

unfoldable pub main_result :
    Result Bool → (shutdown_requested is_running : ℕ → Bool) → Result Void → ℕ → Option (Result ℕ)
main_result started shutdown_requested is_running stopped fuel =
    Option.map catch_fatal (main_block started shutdown_requested is_running stopped fuel)
