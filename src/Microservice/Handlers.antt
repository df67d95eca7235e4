-- ===== src/Microservice/Handlers.antt =====
-- The handlers that setup_http_server of examples/modern_microservice.cpp puts into the router, and
-- extract_field, by which they read a body.
use mathlib.Core.Option
use http_web_framework.Prelude.{Option, [], if◌then◌else◌, none, some, suc, ℕ, ◌++◌, ◌+◌, ◌-◌, ◌∷◌}
use http_web_framework.Text.{Bytes, codes, find_from, starts_with, substr}
use http_web_framework.Throwing.{Action, Exception, catch_std, pure, what, ◌>>=◌}
use http_web_framework.CircuitBreaker.{Operations}
use http_web_framework.Request.{Request, body_as_string, get_path_param}
use http_web_framework.Response.{Response, set_status_code}
use http_web_framework.Microservice.User.{User}
use http_web_framework.Microservice.Service.{Services, State, World, create_user, get_user}

-- `s.find(needle)`
unfoldable pub find_text : Bytes → Bytes → Option ℕ
find_text needle [] = if starts_with [] needle then some 0 else none
find_text needle (x ∷ s) =
    let rest = Option.map suc (find_text needle s) in
    if starts_with (x ∷ s) needle then some 0 else rest

-- Each position that is looked for may be absent, and then the field is empty: the text up to the
-- closing quotation mark, the opening one, the ':', and the name in quotation marks.
unfoldable pub text_until : Bytes → ℕ → Option ℕ → Bytes
text_until json start none = []
text_until json start (some end_quote) = substr json start (end_quote - start)

unfoldable pub text_behind : Bytes → Option ℕ → Bytes
text_behind json none = []
text_behind json (some quote) = text_until json (quote + 1) (find_from b'"' (quote + 1) json)

unfoldable pub value_behind : Bytes → Option ℕ → Bytes
value_behind json none = []
value_behind json (some colon) = text_behind json (find_from b'"' colon json)

unfoldable pub field_behind : Bytes → Option ℕ → Bytes
field_behind json none = []
field_behind json (some start) = value_behind json (find_from b':' start json)

unfoldable pub extract_field : Bytes → Bytes → Bytes
extract_field json field = field_behind json (find_text (b'"' ∷ field ++ b'"' ∷ []) json)

-- `set_json_body` has no body in the repository; `text` gives the texts of the library's exceptions.
module _ (set_json_body : Bytes → Response → Response) where
  unfoldable pub get_health : Response → Response
  get_health res =
      set_json_body (codes "{\"status\":\"healthy\",\"service\":\"modern-microservice\"}") res

  module _ {W : Type 0} (services : Services W) where
    -- The answer for the identifier of the user, and the one for an exception.
    unfoldable pub user_created : Bytes → Response → Response
    user_created user_id' res =
        set_json_body (codes "{\"id\":\"" ++ user_id' ++ codes "\",\"status\":\"created\"}")
          (set_status_code 201 res)

    unfoldable pub user_rejected : Bytes → Response → Response
    user_rejected message res =
        set_json_body (codes "{\"error\":\"" ++ message ++ codes "\"}") (set_status_code 400 res)

    unfoldable pub post_users :
        Operations (World W) Bytes
        → (Exception → Bytes)
        → Request
        → Response
        → Action (State W) Response
    post_users ops text req res =
        let body = body_as_string req in
        catch_std
          (do
            user_id' ←
                create_user services ops (extract_field body (codes "email"))
                  (extract_field body (codes "name"))
            pure (user_created user_id' res))
          (λ e. pure (user_rejected (what text e) res))

    unfoldable pub show_user : User → Bytes
    show_user user =
        codes "{\"id\":\""
        ++ user.user_id
        ++ codes "\",\"email\":\""
        ++ user.email
        ++ codes "\",\"name\":\""
        ++ user.name
        ++ codes "\"}"

    unfoldable pub answer_user : Option User → Response → Response
    answer_user none res =
        set_json_body (codes "{\"error\":\"User not found\"}") (set_status_code 404 res)
    answer_user (some user) res = set_json_body (show_user user) res

    -- The handler of GET /users/{id}, by the parameter of the path.
    unfoldable pub find_user :
        Operations (World W) (Option User) → Option Bytes → Response → Action (State W) Response
    find_user ops none res =
        pure (set_json_body (codes "{\"error\":\"Missing user ID\"}") (set_status_code 400 res))
    find_user ops (some user_id') res = do
      user ← get_user services ops user_id'
      pure (answer_user user res)

    unfoldable pub get_users :
        Operations (World W) (Option User) → Request → Response → Action (State W) Response
    get_users ops req res = find_user ops (get_path_param (codes "id") req) res
