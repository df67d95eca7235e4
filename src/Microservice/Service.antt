-- ===== src/Microservice/Service.antt =====
-- The class UserService of examples/modern_microservice.cpp, over the circuit breaker's state, whose
-- world holds the counters of identifiers and the rest. The lambdas that the breaker executes are
-- coroutines; they are run as awaited.
use http_web_framework.Prelude.{
  Bool, List, Option, [], false, if◌then◌else◌, none, not, some, ℕ, ◌∷◌,
}
use http_web_framework.Text.{Bytes, codes}
use http_web_framework.Throwing.{
  Action, Exception, Void, catch_std, modify, pure, raise, returned, runtime_error, threw, ◌>>=◌,
  ◌>>◌,
}
use http_web_framework.CircuitBreaker.{Breaker, CallResult, Operations, execute}
use http_web_framework.EventSourcing.{Event, any}
use http_web_framework.EventSourcing.Repository.{Backend, get_by_id, save}
use http_web_framework.Microservice.{CreateUserCommand, aggregate_id}
use http_web_framework.Microservice.User.{User, new_user, create_user as create_user_of}

-- The static counters of generate_user_id and generate_event_id, and all else.
pub record World (W : Type 0) : Type 0 where
  pub user_counter : ℕ
  pub event_counter : ℕ
  pub rest : W

-- `CommandResult`
pub record CommandResult : Type 0 where
  pub success : Bool
  pub events : List Event
  pub error_message : Bytes

abbrev pub State : Type 0 → Type 0
State W = Breaker (World W)

-- What the service calls and has no body in the repository: the command bus, the event bus, the
-- repository's store, and the spans of the tracer with what ends them; `no_user_id` and
-- `no_user` are what `*value` does where there is none.
pub record Services (W : Type 0) : Type 0 where
  pub send : CreateUserCommand → Action (State W) CommandResult
  pub publish : Event → Action (State W) Void
  pub backend : Backend (State W) User
  pub snapshots_enabled : Bool
  pub start_active_span : Bytes → State W → State W
  pub end_scope : State W → State W
  pub set_attribute : Bytes → Bytes → State W → State W
  pub set_status : Bool → Bytes → State W → State W
  pub record_exception : Exception → State W → State W
  pub no_user_id : Action (State W) Bytes
  pub no_user : Action (State W) (Option User)

module _ {W : Type 0} (services : Services W) where
  open services use {
    send, publish, backend, snapshots_enabled, start_active_span, end_scope, set_attribute,
    set_status, record_exception, no_user_id, no_user,
  }

  -- The identifier for a new user, from the command's counter.
  unfoldable pub next_user_id : Action (State W) Bytes
  next_user_id b =
      let (user_id', next) = aggregate_id b.world.user_counter in
      (returned user_id', record b { world = record b.world { user_counter = next } })

  -- `user.create_user(email, name)` of a local variable `user`.
  unfoldable pub create_local : CreateUserCommand → User → Action (State W) User
  create_local command user b =
      let (r, (next, user')) =
        create_user_of b.clock command.email command.name (b.world.event_counter, user) in
      let b' = record b { world = record b.world { event_counter = next } } in
      elim r [ returned v ↦ (returned user', b') | threw e ↦ (threw e, b') ]

  -- `repository_->save(user)` of a local variable.
  unfoldable pub save_local : User → Action (State W) User
  save_local user b =
      let (r, (b', user')) = save backend snapshots_enabled any (b, user) in
      elim r [ returned v ↦ (returned user', b') | threw e ↦ (threw e, b') ]

  unfoldable pub publish_all : List Event → Action (State W) Void
  publish_all [] = pure tt
  publish_all (event ∷ events) = publish event >> publish_all events

  -- The lambda of create_user behind a command that succeeded.
  unfoldable pub store_user : CreateUserCommand → List Event → Action (State W) Bytes
  store_user command events = do
    user_id' ← next_user_id
    user ← create_local command (new_user user_id')
    saved ← save_local user
    publish_all events
    pure saved.user_id

  unfoldable pub run_command : CreateUserCommand → CommandResult → Action (State W) Bytes
  run_command command command_result =
      if not command_result.success
      then raise (runtime_error command_result.error_message)
      else store_user command command_result.events

  -- The lambda that create_user has the circuit breaker execute.
  unfoldable pub create_user_call : CreateUserCommand → Action (State W) Bytes
  create_user_call command = send command >>= run_command command

  -- From the start of a span to the end of its scope.
  unfoldable pub in_span : {A : Type 0} → Bytes → Action (State W) A → Action (State W) A
  in_span name m b = let (r, b') = m (start_active_span name b) in (r, end_scope b')

  module _ (ops : Operations (World W) Bytes) where
    -- Behind the execution of the lambda.
    unfoldable pub created_user : CallResult Bytes → Action (State W) Bytes
    created_user result =
        if not result.success
        then (do
          modify (set_status false result.error_message)
          raise (runtime_error result.error_message))
        else (do
          user_id' ← elim result.value [ some v ↦ pure v | none ↦ no_user_id ]
          modify (set_attribute (codes "user.id") user_id')
          pure user_id')

    unfoldable pub create_user : Bytes → Bytes → Action (State W) Bytes
    create_user email' name' = in_span (codes "UserService.create_user") do
      modify (set_attribute (codes "user.email") email')
      modify (set_attribute (codes "user.name") name')
      catch_std
          (execute ops (create_user_call (record { email = email'; name = name' }))
            >>= created_user)
          (λ e. do modify (record_exception e); raise e)

  module _ (ops : Operations (World W) (Option User)) where
    -- Behind the execution of the lambda.
    unfoldable pub found_user : CallResult (Option User) → Action (State W) (Option User)
    found_user result =
        if not result.success
        then (do modify (set_status false result.error_message); pure none)
        else elim result.value [ some v ↦ pure v | none ↦ no_user ]

    unfoldable pub get_user : Bytes → Action (State W) (Option User)
    get_user user_id' = in_span (codes "UserService.get_user") do
      modify (set_attribute (codes "user.id") user_id')
      result ← execute ops (get_by_id backend snapshots_enabled user_id')
      found_user result
