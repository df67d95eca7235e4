-- ===== src/Demo/Missing.antt =====
-- The controllers of src/main.cpp for a path without an `id`.
use http_web_framework.Prelude.{none, ◌≡◌}
use http_web_framework.Text.{Bytes, codes}
use http_web_framework.Request.{Request, get_path_param}
use http_web_framework.Response.{Response}
use http_web_framework.Response.Pages.{IsErrorPage, send_error-IsErrorPage}
use http_web_framework.Demo.UserController.{destroy, show, update}
use http_web_framework.Demo.ProductController.{get_product}

-- Without the path parameter `id` the handlers of one user answer with the complete error page for
-- 400 and get_product with the one for 404, whatever set_json_body does, and whatever was in the
-- response.
pub handlers-IsErrorPage :
    (set_json_body : Bytes → Response → Response) (req : Request) (res : Response)
    → get_path_param (codes "id") req ≡ none
    → IsErrorPage 400 (codes "Invalid user ID") (show set_json_body req res)
      × IsErrorPage 400 (codes "Invalid user ID") (update set_json_body req res)
      × IsErrorPage 400 (codes "Invalid user ID") (destroy set_json_body req res)
      × IsErrorPage 404 (codes "Product not found") (get_product set_json_body req res)
unfolding show update destroy get_product
handlers-IsErrorPage set_json_body req res h =
    let user = send_error-IsErrorPage 400 (codes "Invalid user ID") res in
    let product = send_error-IsErrorPage 404 (codes "Product not found") res in
    (rw (show, h) user, rw (update, h) user, rw (destroy, h) user, rw (get_product, h) product)
