-- ===== src/Task.antt =====
-- include/async/task.hpp: the coroutine class Task, as the computation that it runs over a state,
-- with what it throws. A coroutine starts at once and the caller waits for it with `co_await`, so a
-- task is known by what it does; its frame is taken to live as long as the Task does.
pub mod Combinators
pub mod Polling
pub mod WhenAny
use http_web_framework.Prelude.{Bool, Option, if◌then◌else◌, is_some, leb, none, some, ℕ, ◌-◌}
use http_web_framework.Text.{codes}
use http_web_framework.Future.{Future, FutureStatus, is_ready, get as get_future_of}
use http_web_framework.Throwing.{
  Action, Exception, Result, Void, catch_any, pure, raise, runtime_error, ◌>>=◌, ◌>>◌,
}

-- The handle of a default-constructed or moved-from Task is null.
abbrev pub Task : Type 0 → Type 0 → Type 0
Task S T = Option (Action S T)

module _ {S : Type 0} where
  unfoldable pub is_valid : {T : Type 0} → Task S T → Bool
  is_valid task = is_some task

  -- `get()`, which `co_await` comes to.
  unfoldable pub get : {T : Type 0} → Task S T → Action S T
  get none = raise (runtime_error (codes "Task is not valid"))
  get (some run) = run

  -- A move assignment to a task, and the null handle that the other task is left with.
  unfoldable pub move_assign : {T : Type 0} → Task S T → Task S T → Task S T × Task S T
  move_assign this other = (other, none)

  unfoldable pub then_task : {T R : Type 0} → Task S T → (T → Action S R) → Task S R
  then_task this func = some do result ← get this; func result

  unfoldable pub catch_exception : {T : Type 0} → Task S T → (Exception → Action S T) → Task S T
  catch_exception this func = some (catch_any (get this) func)

  -- The call of `func` behind a success stands in the same `try` block.
  unfoldable pub finally : {T : Type 0} → Task S T → Action S Void → Task S T
  finally this func =
      some (catch_any (do result ← get this; func; pure result) (λ e. do func; raise e))

  unfoldable pub from_value : {T : Type 0} → T → Task S T
  from_value value = some (pure value)

  unfoldable pub from_exception : {T : Type 0} → Exception → Task S T
  from_exception ex = some (raise ex)

  unfoldable pub make_task : {T : Type 0} → Action S T → Task S T
  make_task func = some func

  unfoldable pub make_task_with_args : {A T : Type 0} → (A → Action S T) → A → Task S T
  make_task_with_args func args = some (func args)

  unfoldable pub make_ready_task : {T : Type 0} → T → Task S T
  make_ready_task value = some (pure value)

  unfoldable pub make_exceptional_task : {T : Type 0} → Exception → Task S T
  make_exceptional_task ex = some (raise ex)

  -- The outcome that the thread puts into the promise of the future, and the task, which was moved
  -- into the thread.
  unfoldable pub to_future : {T : Type 0} → Task S T → S → (Result T × Task S T) × S
  to_future this s = let (outcome, s') = get this s in ((outcome, none), s')

  -- The thread waits for the task and does nothing with its outcome.
  unfoldable pub detach : {T : Type 0} → Task S T → S → Task S T × S
  detach none s = (none, s)
  detach (some run) s = let (outcome, s') = run s in (none, s')

  -- The tasks are awaited from left to right (a braced tuple of two).
  unfoldable pub when_all : {T R : Type 0} → Task S T → Task S R → Task S (T × R)
  when_all first second = some do a ← get first; b ← get second; pure (a, b)

-- `sleep_until`, over the clock's time: how long it sleeps, if at all; sleep_for of nothing is ready
-- at once.
unfoldable pub sleep_until : ℕ → ℕ → Option ℕ
sleep_until abs_time now = if leb abs_time now then none else some (abs_time - now)

-- `co_await` of a Future in a coroutine: whether it is ready then, and what it holds. A future that
-- is not ready is moved into the thread that waits for it, and the one that was moved from is read.
unfoldable pub await_future : {U : Type 0} → FutureStatus → Future U → Result U
await_future status future =
    if is_ready status future then (get_future_of future).0 else (get_future_of none).0
