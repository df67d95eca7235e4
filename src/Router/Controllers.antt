-- ===== src/Router/Controllers.antt =====
-- Which routes Router::controller of include/http/router.hpp adds, and those of the users' controller
-- of src/main.cpp.
use http_web_framework.Prelude.{
  Bool-cases, List, [], false, if◌then◌else◌, inl, inr, none, refl, some, true, ◌++◌, ◌∷◌, ◌≡◌,
}
use http_web_framework.Text.{Bytes, codes}
use http_web_framework.Types.{HttpMethod}
use http_web_framework.Request.{Request}
use http_web_framework.Response.{Response}
use http_web_framework.Demo.UserController
use http_web_framework.Router.{Controller, Method, Registration, add_method, controller}

-- A route, before it is added.
pub record Entry {ℓ} (H : Type ℓ) : Type ℓ where
  pub verb : HttpMethod
  pub pattern : Bytes
  pub handler : H

module _ {H : Type 0} where
  -- The route of a method that can be called without arguments, and with two.
  unfoldable pub entry_of : HttpMethod → Bytes → Method H → List (Entry H)
  entry_of verb path m =
      if m.without_arguments
      then elim m.handler [
        | some h ↦ record { verb = verb; pattern = path; handler = h } ∷ []
        | none ↦ []
      ]
      else []

  -- The routes of a controller: a collection and its members.
  unfoldable pub entries_of : Bytes → Controller H → List (Entry H)
  entries_of path c =
      let member = path ++ codes "/{id}" in
      entry_of HttpMethod.get path c.index
      ++ (entry_of HttpMethod.get member c.show
          ++ (entry_of HttpMethod.post path c.create
              ++ (entry_of HttpMethod.put member c.update
                  ++ entry_of HttpMethod.delete member c.destroy)))

  -- A method that can be called without arguments can be called with two.
  unfoldable pub HasBoth : Method H → Type 0
  HasBoth m = m.without_arguments ≡ true → (h : H) × (m.handler ≡ some h)

module _ {H R : Type 0} where
  -- The call that adds a route; a controller has no other methods.
  unfoldable pub add_entry : Registration H R → Entry H → R → R
  add_entry this entry router = elim entry.verb [
    | HttpMethod.get ↦ this.get entry.pattern entry.handler router
    | HttpMethod.post ↦ this.post entry.pattern entry.handler router
    | HttpMethod.put ↦ this.put entry.pattern entry.handler router
    | HttpMethod.delete ↦ this.delete_ entry.pattern entry.handler router
    | _ ↦ router
  ]

  unfoldable pub add_entries : Registration H R → List (Entry H) → R → R
  add_entries this [] router = router
  add_entries this (entry ∷ entries) router = add_entries this entries (add_entry this entry router)

  add_entries-append :
      (this : Registration H R) (xs ys : List (Entry H)) (router : R)
      → add_entries this (xs ++ ys) router ≡ add_entries this ys (add_entries this xs router)
  unfolding add_entries
  add_entries-append this [] ys router = refl
  add_entries-append this (x ∷ xs) ys router =
      add_entries-append this xs ys (add_entry this x router)

  add_method_lem :
      (this : Registration H R) (verb : HttpMethod) (path : Bytes) (m : Method H) (add : H → R → R)
      (router : R)
      → HasBoth m
      → ((h : H) (router' : R)
          → add_entry this (record { verb = verb; pattern = path; handler = h }) router'
            ≡ add h router')
      → add_method m add router ≡ some (add_entries this (entry_of verb path m) router)
  unfolding HasBoth add_method add_entries entry_of
  add_method_lem this verb path m add router both same = elim (Bool-cases m.without_arguments) [
    | inl y ↦ let (h, e) = both y in rw (y, e, same h router) refl
    | inr n ↦ rw n refl
  ]

  -- If each method of the class that can be called without arguments has an overload for a request
  -- and a response, the program is well-formed, and exactly the routes of those methods are added,
  -- in the order index, show, create, update, destroy.
  pub controller-entries_of :
      (this : Registration H R) (path : Bytes) (c : Controller H) (router : R)
      → HasBoth c.index
      → HasBoth c.show
      → HasBoth c.create
      → HasBoth c.update
      → HasBoth c.destroy
      → controller this path c router ≡ some (add_entries this (entries_of path c) router)
  unfolding controller entries_of add_entry
  controller-entries_of this path c router i s n u d =
      let member = path ++ codes "/{id}" in
      let es1 = entry_of HttpMethod.get path c.index in
      let es2 = entry_of HttpMethod.get member c.show in
      let es3 = entry_of HttpMethod.post path c.create in
      let es4 = entry_of HttpMethod.put member c.update in
      let es5 = entry_of HttpMethod.delete member c.destroy in
      let r1 = add_entries this es1 router in
      let r2 = add_entries this es2 r1 in
      let r3 = add_entries this es3 r2 in
      let r4 = add_entries this es4 r3 in
      rw
        (
          add_method_lem this HttpMethod.get path c.index (this.get path) router i (λ h x. refl),
          add_method_lem this HttpMethod.get member c.show (this.get member) r1 s (λ h x. refl),
          add_method_lem this HttpMethod.post path c.create (this.post path) r2 n (λ h x. refl),
          add_method_lem this HttpMethod.put member c.update (this.put member) r3 u (λ h x. refl),
          add_method_lem this HttpMethod.delete member c.destroy (this.delete_ member) r4 d
              (λ h x. refl),
          add_entries-append this es1 (es2 ++ (es3 ++ (es4 ++ es5))) router,
          add_entries-append this es2 (es3 ++ (es4 ++ es5)) r1,
          add_entries-append this es3 (es4 ++ es5) r2,
          add_entries-append this es4 es5 r3,
        )
        refl

-- The class of src/main.cpp: each of its methods takes a request and a response.
unfoldable pub user_controller :
    (Bytes → Response → Response) → Controller (Request → Response → Response)
user_controller set_json_body = record {
  index = record { without_arguments = false; handler = some (UserController.index set_json_body) };
  show = record { without_arguments = false; handler = some (UserController.show set_json_body) };
  create = record {
    without_arguments = false;
    handler = some (UserController.create set_json_body);
  };
  update = record {
    without_arguments = false;
    handler = some (UserController.update set_json_body);
  };
  destroy = record {
    without_arguments = false;
    handler = some (UserController.destroy set_json_body);
  };
}

-- Whatever the routers are, and whatever their calls that add a route do, the call of
-- Router::controller for the users' controller leaves the router as it is: no route of "/users" is
-- added, since no method can be called without arguments.
pub controller-user_controller :
    {R : Type 0} (this : Registration (Request → Response → Response) R)
    (set_json_body : Bytes → Response → Response) (path : Bytes) (router : R)
    → controller this path (user_controller set_json_body) router ≡ some router
unfolding controller add_method user_controller
controller-user_controller this set_json_body path router = refl
