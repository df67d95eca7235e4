-- ===== src/Demo/UserController.antt =====
-- The class UserController of src/main.cpp. `set_json_body` of Response is declared in the
-- repository and has no body: a parameter.
use http_web_framework.Prelude.{[], none, some, ◌∷◌}
use http_web_framework.Text.{Bytes, codes, stream}
use http_web_framework.Request.{Request, body_as_string, get_path_param}
use http_web_framework.Response.{Response, set_status_code}
use http_web_framework.Response.Body.{send_error}

module _ (set_json_body : Bytes → Response → Response) where
  unfoldable pub index : Request → Response → Response
  index req res =
      set_json_body
        (codes "{\"users\": [{\"id\": 1, \"name\": \"John\"}, {\"id\": 2, \"name\": \"Jane\"}]}")
        res

  unfoldable pub show : Request → Response → Response
  show req res = elim (get_path_param (codes "id") req) [
    | some id ↦
        set_json_body
          (stream (codes "{\"id\": " ∷ id ∷ codes ", \"name\": \"User " ∷ id ∷ codes "\"}" ∷ []))
          res
    | none ↦ send_error 400 (codes "Invalid user ID") res
  ]

  unfoldable pub create : Request → Response → Response
  create req res =
      set_json_body
        (stream (
          codes "{\"message\": \"User created\", \"data\": " ∷ body_as_string req ∷ codes "}" ∷ []))
        (set_status_code 201 res)

  unfoldable pub update : Request → Response → Response
  update req res = elim (get_path_param (codes "id") req) [
    | some id ↦
        set_json_body
          (stream (
            codes "{\"message\": \"User "
            ∷ id
            ∷ codes " updated\", \"data\": "
            ∷ body_as_string req
            ∷ codes "}"
            ∷ []))
          res
    | none ↦ send_error 400 (codes "Invalid user ID") res
  ]

  unfoldable pub destroy : Request → Response → Response
  destroy req res = elim (get_path_param (codes "id") req) [
    | some id ↦ set_status_code 204 res
    | none ↦ send_error 400 (codes "Invalid user ID") res
  ]
