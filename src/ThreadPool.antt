-- ===== src/ThreadPool.antt =====
-- include/core/thread_pool.hpp: submit, and the division of a range among the threads of the pool by
-- parallel_for and parallel_transform. A task is known by its result, since the tasks share nothing
-- that they change, and the range is taken to live until the last task has ended. Parameters are
-- whether enqueue_task, which has no body in the repository, accepts a task, and async::when_all of
-- two iterators, which the repository does not have. A result within a result is the future of a
-- call that returned. `none` is what C++ leaves undefined: a division by zero and an index out of
-- range.
pub mod Partition
pub mod Periodic
pub mod Transform
use mathlib.Core.Option
use http_web_framework.Prelude.{
  Bool, List, Option, [], drop, get_elem?, if◌then◌else◌, length, ltb, map, max, min, none, not,
  some, suc, take, zero, ℕ, ◌++◌, ◌+◌, ◌-◌, ◌/◌, ◌==◌, ◌∷◌,
}
use http_web_framework.Text.{codes, size}
use http_web_framework.Future.{then_outcome}
use http_web_framework.Throwing.{Result, Void, returned, runtime_error, threw}

-- `submit`: the future of the task, or what is thrown. An exception of the task is in its future.
unfoldable pub submit : {A : Type 0} → Bool → Bool → Result A → Result (Result A)
submit shutdown_requested enqueued task =
    if shutdown_requested
    then threw (runtime_error (codes "ThreadPool is shutting down"))
    else if not enqueued
    then threw (runtime_error (codes "Failed to enqueue task"))
    else returned task

-- `std::max(1, count / size())`
unfoldable pub chunk_size : ℕ → ℕ → Option ℕ
chunk_size count size = if size == 0 then none else some (max 1 (count / size))

-- A vector behind one more element, unless an exception came.
abbrev pub push_result : {R : Type 0} → R → Result (List R) → Result (List R)
push_result r (returned rs) = returned (r ∷ rs)
push_result r (threw e) = threw e

module _ {T : Type 0} (func : T → Result Void) where
  -- The loop of one task of parallel_for over its part of the range.
  unfoldable pub run_range : List T → Result Void
  run_range [] = returned tt
  run_range (x ∷ range) = elim (func x) [ threw e ↦ threw e | returned _ ↦ run_range range ]

  module _ (shutdown_requested enqueue_task : ℕ → Bool) where
    -- The loop of parallel_for from `current` on; `k` counts the tasks. Every round takes at least
    -- one element, so as many rounds as there are elements are enough.
    unfoldable pub submit_ranges : ℕ → ℕ → ℕ → List T → Result (List (Result Void))
    submit_ranges zero chunk k range = returned []
    submit_ranges (suc f) chunk k [] = returned []
    submit_ranges (suc f) chunk k (x ∷ range) =
        let count = min chunk (length (x ∷ range)) in
        let rest = submit_ranges f chunk (suc k) (drop count (x ∷ range)) in
        let task = run_range (take count (x ∷ range)) in
        elim (submit (shutdown_requested k) (enqueue_task k) task) [
          | threw e ↦ threw e
          | returned future ↦ push_result future rest
        ]

module _ {T : Type 0} (shutdown_requested enqueue_task : ℕ → Bool)
    (when_all : List (Result Void) → Result Void) (size : ℕ) where
  unfoldable pub parallel_for : (T → Result Void) → List T → Option (Result (Result Void))
  parallel_for func [] = some (returned (returned tt))
  parallel_for func (x ∷ range) = elim (chunk_size (length (x ∷ range)) size) [
    | none ↦ none
    | some chunk ↦
        elim (submit_ranges func shutdown_requested enqueue_task (length (x ∷ range)) chunk 0
          (x ∷ range)) [
            | threw e ↦ some (threw e)
            | returned futures ↦ some (returned (when_all futures))
          ]
  ]

module _ {T R : Type 0} (func : T → Result R) (input : List T) where
  -- The loop of one task over `j`, with `end_idx - j` rounds left.
  unfoldable pub run_chunk : ℕ → ℕ → Option (Result (List R))
  run_chunk zero j = some (returned [])
  run_chunk (suc k) j = elim (get_elem? input j) [
    | none ↦ none
    | some x ↦ elim (func x) [
      | threw e ↦ some (threw e)
      | returned r ↦ Option.map (push_result r) (run_chunk k (suc j))
    ]
  ]

  module _ (shutdown_requested enqueue_task : ℕ → Bool) (chunk : ℕ) where
    -- The loop of parallel_transform over `i`; `k` counts the tasks.
    unfoldable pub submit_chunks : ℕ → ℕ → ℕ → Option (Result (List (Result (List R))))
    submit_chunks zero k i = some (returned [])
    submit_chunks (suc f) k i =
        let end_idx = min (i + chunk) (length input) in
        let rest = submit_chunks f (suc k) (i + chunk) in
        let round : Option (Result (List (Result (List R)))) = elim (run_chunk (end_idx - i) i) [
          | none ↦ none
          | some r ↦ elim (submit (shutdown_requested k) (enqueue_task k) r) [
            | threw e ↦ some (threw e)
            | returned future ↦ Option.map (push_result future) rest
          ]
        ] in
        if ltb i (length input) then round else some (returned [])

-- `chunk.get()` for each future, and `combined.insert` of what it has.
unfoldable pub combine : {R : Type 0} → List (Result (List R)) → Result (List R)
combine [] = returned []
combine (threw e ∷ futures) = threw e
combine (returned rs ∷ futures) = elim (combine futures) [
  | threw e ↦ threw e
  | returned rest ↦ returned (rs ++ rest)
]

module _ {T R : Type 0} (shutdown_requested enqueue_task : ℕ → Bool)
    (when_all : List (Result (List R)) → Result (List (Result (List R)))) (size : ℕ) where
  unfoldable pub parallel_transform : (T → Result R) → List T → Option (Result (Result (List R)))
  parallel_transform func [] = some (returned (returned []))
  parallel_transform func (x ∷ input) = elim (chunk_size (length (x ∷ input)) size) [
    | none ↦ none
    | some chunk ↦
        elim (submit_chunks func (x ∷ input) shutdown_requested enqueue_task chunk
          (length (x ∷ input)) 0 0) [
            | none ↦ none
            | some (threw e) ↦ some (threw e)
            | some (returned futures) ↦ some (returned (then_outcome combine (when_all futures)))
          ]
  ]
