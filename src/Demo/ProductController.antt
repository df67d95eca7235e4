-- ===== src/Demo/ProductController.antt =====
-- The class ProductController of src/main.cpp. `set_json_body` of Response is declared in the
-- repository and has no body: a parameter.
use http_web_framework.Prelude.{[], none, some, ◌∷◌}
use http_web_framework.Text.{Bytes, codes, stream}
use http_web_framework.Request.{Request, get_path_param}
use http_web_framework.Response.{Response}
use http_web_framework.Response.Body.{send_error}

module _ (set_json_body : Bytes → Response → Response) where
  -- The query parameters `category` and `limit` are read and not used.
  unfoldable pub list_products : Request → Response → Response
  list_products req res =
      set_json_body
        (stream (
          codes "{\"products\": ["
          ∷ codes "{\"id\": 1, \"name\": \"Laptop\", \"category\": \"electronics\"},"
          ∷ codes "{\"id\": 2, \"name\": \"Book\", \"category\": \"education\"}"
          ∷ codes "]}"
          ∷ []))
        res

  unfoldable pub get_product : Request → Response → Response
  get_product req res = elim (get_path_param (codes "id") req) [
    | some id ↦
        set_json_body
          (stream (codes "{\"id\": " ∷ id ∷ codes ", \"name\": \"Product " ∷ id ∷ codes "\"}" ∷ []))
          res
    | none ↦ send_error 404 (codes "Product not found") res
  ]
