-- ===== src/Microservice/Refusal.antt =====
-- What create_user of the class UserService of examples/modern_microservice.cpp comes to: the user
-- that it creates has an identifier already, which the class User refuses.
use http_web_framework.Prelude.{
  Bool-cases, List, ap, arith, if◌then◌else◌, inl, inr, not, refl, sym, true, ℕ, ◌∙◌, ◌≡◌,
}
use http_web_framework.Text.{Bytes, codes}
use http_web_framework.Throwing.{
  Action, Exception, Result, Result-cases, catch_std, modify, raise, returned, run_returned,
  run_threw, pure, what, runtime_error, threw, ◌>>=◌, ◌>>◌,
}
use http_web_framework.CircuitBreaker.{CallResult, Operations, execute}
use http_web_framework.CircuitBreaker.Failures.{IsThrowing, execute_failure, is_failure}
use http_web_framework.EventSourcing.{Event}
use http_web_framework.Microservice.{CreateUserCommand, aggregate_id}
use http_web_framework.Microservice.User.{new_user, create_user as create_user_of}
use http_web_framework.Microservice.Service.{
  CommandResult, Services, State, World, create_local, create_user, create_user_call, created_user,
  in_span, next_user_id, run_command, store_user,
}
use http_web_framework.Microservice.Handlers.{
  post_users, user_rejected, extract_field, user_created,
}
use http_web_framework.Request.{Request, body_as_string}
use http_web_framework.Response.{Response}

module _ {W : Type 0} (services : Services W) where
  -- Behind the command bus: nothing is stored and nothing is published.
  unfoldable pub refused : Result CommandResult → Action (State W) Bytes
  refused (threw e) b = (threw e, b)
  refused (returned result) b =
      if not result.success
      then (threw (runtime_error result.error_message), b)
      else (threw (runtime_error (codes "User already exists")), (next_user_id services b).1)

  store_user_refused :
      (command : CreateUserCommand) (events : List Event) (b : State W)
      → store_user services command events b
        ≡ (threw (runtime_error (codes "User already exists")), (next_user_id services b).1)
  unfolding store_user next_user_id create_local create_user_of new_user aggregate_id
  store_user_refused command events b = refl

  run_command-refused :
      (command : CreateUserCommand) (result : CommandResult) (b : State W)
      → run_command services command result b ≡ refused (returned result) b
  unfolding run_command refused
  run_command-refused command result b = ground (arith, store_user_refused command result.events b)

  -- No user is ever stored, and no event published: the call throws what the command bus throws, its
  -- error, or that the user exists already, and leaves the state that the command bus left, but for
  -- the counter of identifiers.
  pub create_user_call-refused :
      (command : CreateUserCommand) (b : State W)
      → create_user_call services command b
        ≡ refused (services.send command b).0 (services.send command b).1
  unfolding create_user_call refused run_command
  create_user_call-refused command b =
      let b' = (services.send command b).1 in
      elim (Result-cases (services.send command b).0) [
        | inl (result, h) ↦
            run_returned (services.send command) (run_command services command) result b b'
              (ap (λ r. (r, b')) h)
            ∙ run_command-refused command result b'
            ∙ ap (λ r. refused r b') (sym h)
        | inr (e, h) ↦
            run_threw (services.send command) (run_command services command) e b b'
              (ap (λ r. (r, b')) h)
            ∙ ap (λ r. refused r b') (sym h)
      ]

  refused_throws :
      (r : Result CommandResult) (b : State W) → (e : Exception) × ((refused r b).0 ≡ threw e)
  unfolding refused
  refused_throws (threw e) b = (e, refl)
  refused_throws (returned result) b = elim (Bool-cases result.success) [
    | inl on ↦ (runtime_error (codes "User already exists"), simp (on))
    | inr off ↦ (runtime_error result.error_message, simp (off))
  ]

  create_user_call-IsThrowing :
      (command : CreateUserCommand) → IsThrowing (create_user_call services command)
  unfolding IsThrowing
  create_user_call-IsThrowing command b =
      let (e, h) = refused_throws (services.send command b).0 (services.send command b).1 in
      (e, ap (λ p. p.0) (create_user_call-refused command b) ∙ h)

  -- A race with a timeout gives nothing but what the function gives, or throws.
  unfoldable pub IsRace : Operations (World W) Bytes → Type 0
  IsRace ops =
      (limit : ℕ) (m : Action (State W) Bytes)
      → IsThrowing m
      → IsThrowing (ops.race_timeout limit m)

  module _ (ops : Operations (World W) Bytes) where
    created_user_throws :
        (r : Result (CallResult Bytes)) (b b' : State W)
        → is_failure r ≡ true
        → (e : Exception) × ((((λ s. (r, b')) >>= created_user services ops) b).0 ≡ threw e)
    unfolding created_user is_failure
    created_user_throws (threw e) b b' h = (e, refl)
    created_user_throws (returned result) b b' h =
        (runtime_error result.error_message, ground arith)

    call_throws :
        (command : CreateUserCommand)
        → IsRace ops
        → IsThrowing (execute ops (create_user_call services command) >>= created_user services ops)
    unfolding IsThrowing IsRace
    call_throws command race b =
        let func = create_user_call services command in
        let throws = create_user_call-IsThrowing command in
        created_user_throws (execute ops func b).0 b (execute ops func b).1
          (execute_failure ops func b throws (λ limit. race limit func throws))

    rethrown :
        (m : Action (State W) Bytes)
        → IsThrowing m
        → IsThrowing (catch_std m (λ e. modify (services.record_exception e) >> raise e))
    unfolding IsThrowing
    rethrown m throws b = let (e, h) = throws b in (e, ground arith)

    create_user-IsThrowing :
        (email' name' : Bytes) → IsRace ops → IsThrowing (create_user services ops email' name')
    unfolding create_user in_span IsThrowing
    create_user-IsThrowing email' name' race b =
        let command : CreateUserCommand = record { email = email'; name = name' } in
        let started = services.start_active_span (codes "UserService.create_user") b in
        let with_email = services.set_attribute (codes "user.email") email' started in
        rethrown (execute ops (create_user_call services command) >>= created_user services ops)
          (call_throws command race) (services.set_attribute (codes "user.name") name' with_email)

    caught_answer :
        (m : Action (State W) Bytes) (g : Bytes → Response) (f : Exception → Response)
        (answer : Response) (b b' : State W)
        → IsThrowing m
        → catch_std (m >>= λ v. pure (g v)) (λ e. pure (f e)) b ≡ (returned answer, b')
        → (e : Exception) × (answer ≡ f e)
    unfolding IsThrowing
    caught_answer m g f answer b b' throws h = let (e, k) = throws b in (e, ground arith)

    -- POST /users never creates a user: the answer is always an error of status 400, if there is one.
    pub post_users_rejected :
        (set_json_body : Bytes → Response → Response) (text : Exception → Bytes) (req : Request)
        (res answer : Response) (b b' : State W)
        → IsRace ops
        → post_users set_json_body services ops text req res b ≡ (returned answer, b')
        → (message : Bytes) × (answer ≡ user_rejected set_json_body services message res)
    unfolding post_users
    post_users_rejected set_json_body text req res answer b b' race h =
        let body = body_as_string req in
        let (e, k) =
          caught_answer
            (create_user services ops (extract_field body (codes "email"))
              (extract_field body (codes "name")))
            (λ v. user_created set_json_body services v res)
            (λ e. user_rejected set_json_body services (what text e) res) answer b b'
            (create_user-IsThrowing (extract_field body (codes "email"))
              (extract_field body (codes "name")) race)
            h in
        (what text e, k)
