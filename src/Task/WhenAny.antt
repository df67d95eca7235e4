-- ===== src/Task/WhenAny.antt =====
-- `Task::when_any_impl` of include/async/task.hpp: the awaiter that the threads of the tasks share,
-- and their steps. A thread is known by what `task.get()` will give it, with the alternative of the
-- variant that it is put into; for a task without a value, whose thread only waits, that is its
-- index. A schedule is the list of the threads in the order in which they take their steps, once
-- all have been started. `none` is what C++ leaves undefined: a step of a thread that needs the awaiter,
-- its task or the handle when the first `resume` has destroyed them.
pub mod Phases
pub mod Moves
pub mod Kept
pub mod Once
pub mod Steps
pub mod Early
pub mod Undisturbed
pub mod Finished
use mathlib.Core.Option
use http_web_framework.Prelude.{
  Bool, List, Option, [], false, if◌then◌else◌, map, none, some, suc, true, zero, ℕ, ◌&&◌, ◌++◌,
  ◌∷◌,
}
use http_web_framework.Throwing.{Exception, Result, returned, threw}

-- A thread before `get` returns or throws, before `completed.exchange(true)`, before it stores what
-- it has, before `handle.resume()`, and behind its function.
pub data Thread {ℓ} (V : Type ℓ) : Type ℓ where
  getting : Result V → Thread V
  arrived : Result V → Thread V
  storing : Result V → Thread V
  resuming : Thread V
  ended : Thread V

-- The awaiter, and what `await_resume` gave the coroutine each time that it was resumed.
pub record Awaiter {ℓ} (V : Type ℓ) : Type ℓ where
  pub completed : Bool
  pub result : V
  pub exception : Option Exception
  pub resumptions : List (Result V)

module _ {V : Type 0} where
  unfoldable pub await_resume : Awaiter V → Result V
  await_resume awaiter = elim awaiter.exception [
    | some e ↦ threw e
    | none ↦ returned awaiter.result
  ]

  unfoldable pub store : Result V → Awaiter V → Awaiter V
  store (returned value) awaiter = record awaiter { result = value }
  store (threw e) awaiter = record awaiter { exception = some e }

  unfoldable pub resume : Awaiter V → Awaiter V
  resume awaiter = record awaiter { resumptions = awaiter.resumptions ++ await_resume awaiter ∷ [] }

  -- One step of a thread, with what it does to the awaiter.
  unfoldable pub advance : Thread V → Awaiter V → Thread V × Awaiter V
  advance (getting outcome) awaiter = (arrived outcome, awaiter)
  advance (arrived outcome) awaiter =
      if awaiter.completed
      then (ended, awaiter)
      else (storing outcome, record awaiter { completed = true })
  advance (storing outcome) awaiter = (resuming, store outcome awaiter)
  advance resuming awaiter = (ended, resume awaiter)
  advance ended awaiter = (ended, awaiter)

  -- The threads and the awaiter behind a step of the `i`-th thread, if there is one.
  unfoldable pub step : ℕ → List (Thread V) → Awaiter V → List (Thread V) × Awaiter V
  step i [] awaiter = ([], awaiter)
  step zero (t ∷ ts) awaiter = let (t', awaiter') = advance t awaiter in (t' ∷ ts, awaiter')
  step (suc i) (t ∷ ts) awaiter = let (ts', awaiter') = step i ts awaiter in (t ∷ ts', awaiter')

  -- The steps of a schedule alone.
  unfoldable pub run : List ℕ → List (Thread V) → Awaiter V → List (Thread V) × Awaiter V
  run [] ts awaiter = (ts, awaiter)
  run (i ∷ schedule) ts awaiter =
      let (ts', awaiter') = step i ts awaiter in run schedule ts' awaiter'

  -- The coroutine that is resumed runs on to its end, where its frame is destroyed, with the awaiter
  -- and the tasks.
  unfoldable pub is_destroyed : Awaiter V → Bool
  is_destroyed awaiter = elim awaiter.resumptions [ [] ↦ false | r ∷ rs ↦ true ]

  -- Whether the `i`-th thread has a step to take, each of which needs what the frame holds.
  unfoldable pub is_active_at : ℕ → List (Thread V) → Bool
  is_active_at i [] = false
  is_active_at zero (ended ∷ ts) = false
  is_active_at zero (t ∷ ts) = true
  is_active_at (suc i) (t ∷ ts) = is_active_at i ts

  -- The steps of a schedule, unless one of them needs what is destroyed.
  unfoldable pub run_threads :
      List ℕ → List (Thread V) → Awaiter V → Option (List (Thread V) × Awaiter V)
  run_threads [] ts awaiter = some (ts, awaiter)
  run_threads (i ∷ schedule) ts awaiter =
      let (ts', awaiter') = step i ts awaiter in
      let rest = run_threads schedule ts' awaiter' in
      if is_destroyed awaiter && is_active_at i ts then none else rest

  -- The awaiter as `await_suspend` finds it; `value` is what the variant starts with.
  unfoldable pub new_awaiter : V → Awaiter V
  new_awaiter value = record {
    completed = false;
    result = value;
    exception = none;
    resumptions = [];
  }

  -- `await_suspend` starts a thread for each task.
  unfoldable pub await_suspend : List (Result V) → List (Thread V)
  await_suspend outcomes = map getting outcomes

  -- What `co_await` of the awaiter has come to: none of the tasks is looked at if one is ready.
  unfoldable pub when_any_impl : Bool → V → List (Result V) → List ℕ → Option (List (Result V))
  when_any_impl any_ready value outcomes schedule =
      if any_ready
      then some (await_resume (new_awaiter value) ∷ [])
      else Option.map (λ (s : List (Thread V) × Awaiter V). s.1.resumptions)
          (run_threads schedule (await_suspend outcomes) (new_awaiter value))
