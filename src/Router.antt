-- ===== src/Router.antt =====
-- include/http/router.hpp: Router::controller. The calls that add one route are declared in the
-- repository and have no body: the fields of an interface. `none` is a program that is not
-- well-formed.
pub mod Controllers
use http_web_framework.Prelude.{Bool, Option, if◌then◌else◌, none, some, ◌++◌}
use http_web_framework.Text.{Bytes, codes}

-- get, post, put and delete_ of a router.
pub record Registration {ℓ κ} (H : Type ℓ) (R : Type κ) : Type (ℓ ⊔ κ) where
  pub get : Bytes → H → R → R
  pub post : Bytes → H → R → R
  pub put : Bytes → H → R → R
  pub delete_ : Bytes → H → R → R

-- A method name of a controller's class: whether a call without arguments is well-formed, and what a
-- call with a request and a response does, if it is.
pub record Method {ℓ} (H : Type ℓ) : Type ℓ where
  pub without_arguments : Bool
  pub handler : Option H

pub record Controller {ℓ} (H : Type ℓ) : Type ℓ where
  pub index : Method H
  pub show : Method H
  pub create : Method H
  pub update : Method H
  pub destroy : Method H

-- `if constexpr (requires { controller->m(); }) { add(..., [controller](...) { controller->m(req,
-- res); }); }`
unfoldable pub add_method {ℓ κ} : {H : Type ℓ} {R : Type κ} → Method H → (H → R → R) → R → Option R
add_method m add router =
    if m.without_arguments
    then elim m.handler [ some h ↦ some (add h router) | none ↦ none ]
    else some router

infixl 5 ◌>>=◌
abbrev ◌>>=◌ {ℓ κ} : {A : Type ℓ} {B : Type κ} → Option A → (A → Option B) → Option B
none >>= f = none
some a >>= f = f a

unfoldable pub controller {ℓ κ} :
    {H : Type ℓ} {R : Type κ} → Registration H R → Bytes → Controller H → R → Option R
controller this pattern c router = do
  router ← add_method c.index (this.get pattern) router
  router ← add_method c.show (this.get (pattern ++ codes "/{id}")) router
  router ← add_method c.create (this.post pattern) router
  router ← add_method c.update (this.put (pattern ++ codes "/{id}")) router
  add_method c.destroy (this.delete_ (pattern ++ codes "/{id}")) router
