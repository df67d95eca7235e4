-- ===== src/ThreadPool/Transform.antt =====
-- parallel_transform of include/core/thread_pool.hpp against a plain pass over the vector.
use mathlib.Core.Option
use native.Mathlib.Decide.{dec_lt}
use http_web_framework.Prelude.{
  Bool, List, [], ap, arith, drop, drop_past, false, get_elem?-drop, ge→ltb, inl, inr, length,
  lt→ltb, max, min, refl, slice-append-drop, some, suc, sym, take, true, zero, ℕ, ◌++◌, ◌+◌, ◌-◌,
  ◌/◌, ◌<◌, ◌∙◌, ◌∷◌, ◌≡◌, ◌≤◌,
}
use http_web_framework.Throwing.{Exception, Result, Result-cases, returned, threw}
use http_web_framework.Future.{then_outcome}
use http_web_framework.ThreadPool.{
  combine, parallel_transform, push_result, run_chunk, submit_chunks,
}
use http_web_framework.ThreadPool.Partition.{chunk_size-of_pos, submit_accepted}

-- The function at each element in order, up to the first exception.
pub traverse : {T R : Type 0} → (T → Result R) → List T → Result (List R)
traverse func [] = returned []
traverse func (x ∷ xs) = elim (func x) [
  | threw e ↦ threw e
  | returned r ↦ push_result r (traverse func xs)
]

append_results : {R : Type 0} → Result (List R) → Result (List R) → Result (List R)
append_results (threw e) b = threw e
append_results (returned rs) (threw e) = threw e
append_results (returned rs) (returned rest) = returned (rs ++ rest)

combine_cons :
    {R : Type 0} (c : Result (List R)) (cs : List (Result (List R)))
    → combine (c ∷ cs) ≡ append_results c (combine cs)
unfolding combine append_results
combine_cons (threw e) cs = refl
combine_cons (returned rs) cs = ground arith

append_results_nil : {R : Type 0} (b : Result (List R)) → append_results (returned []) b ≡ b
unfolding append_results
append_results_nil (threw e) = refl
append_results_nil (returned rs) = refl

append_results_threw :
    {R : Type 0} (e : Exception) (b : Result (List R)) → threw e ≡ append_results (threw e) b
unfolding append_results
append_results_threw e b = refl

push-append_results :
    {R : Type 0} (r : R) (a b : Result (List R))
    → push_result r (append_results a b) ≡ append_results (push_result r a) b
unfolding append_results
push-append_results r (threw e) b = refl
push-append_results r (returned rs) (threw e) = refl
push-append_results r (returned rs) (returned rest) = refl

module _ {T R : Type 0} (func : T → Result R) where
  traverse_returned :
      (x : T) (xs : List T) (r : R)
      → func x ≡ returned r
      → traverse func (x ∷ xs) ≡ push_result r (traverse func xs)
  unfolding traverse
  traverse_returned x xs r h = rw (traverse, h)

  traverse_threw :
      (x : T) (xs : List T) (e : Exception) → func x ≡ threw e → traverse func (x ∷ xs) ≡ threw e
  unfolding traverse
  traverse_threw x xs e h = rw (traverse, h)

  traverse-append :
      (xs ys : List T)
      → traverse func (xs ++ ys) ≡ append_results (traverse func xs) (traverse func ys)
  unfolding traverse
  traverse-append [] ys = sym (append_results_nil (traverse func ys))
  traverse-append (x ∷ xs) ys = elim (Result-cases (func x)) [
    | inr (e, thrown) ↦
        rw (traverse_threw x xs e thrown, traverse_threw x (xs ++ ys) e thrown)
          (append_results_threw e (traverse func ys))
    | inl (r, value) ↦
        rw
          (
            traverse_returned x xs r value,
            traverse_returned x (xs ++ ys) r value,
            traverse-append xs ys,
          )
          (push-append_results r (traverse func xs) (traverse func ys))
  ]

  run_chunk_lem :
      (input : List T) (k j : ℕ)
      → j + k ≤ length input
      → run_chunk func input k j ≡ some (traverse func (take k (drop j input)))
  unfolding run_chunk traverse
  run_chunk_lem input zero j h = refl
  run_chunk_lem input (suc k) j h =
      let (x, read, here) = get_elem?-drop input j (omega arith) in
      let ih = run_chunk_lem input k (suc j) (omega arith) in
      elim (Result-cases (func x)) [
        | inr (e, thrown) ↦ rw (run_chunk, read, here, thrown)
        | inl (r, value) ↦ rw (run_chunk, read, here, value) (ap (Option.map (push_result r)) ih)
      ]

module _ {T R : Type 0} (func : T → Result R) (input : List T)
    (shutdown_requested enqueue_task : ℕ → Bool) (running : (k : ℕ) → shutdown_requested k ≡ false)
    (accepted : (k : ℕ) → enqueue_task k ≡ true) where
  submit_chunks_lem :
      (chunk f k i : ℕ)
      → 0 < chunk
      → length input ≤ i + f
      → (futures : List (Result (List R))) × (submit_chunks func input shutdown_requested
            enqueue_task chunk f k i
          ≡ some (returned futures))
        × (combine futures ≡ traverse func (drop i input))
  unfolding submit_chunks combine traverse
  submit_chunks_lem chunk zero k i pos h =
      ([], refl, ap (traverse func) (sym (drop_past i input (omega arith))))
  submit_chunks_lem chunk (suc f) k i pos h = elim (dec_lt i (length input)) [
    | no done ↦ (
      [],
      rw (ge→ltb i (length input) (omega arith)),
      ap (traverse func) (sym (drop_past i input (omega arith))),
    )
    | yes more ↦
        let (futures, submitted, rest) =
          submit_chunks_lem chunk f (suc k) (i + chunk) pos (omega arith) in
        let count = min (i + chunk) (length input) - i in
        let part = traverse func (take count (drop i input)) in
        (
          part ∷ futures,
          rw (
            lt→ltb i (length input) more,
            run_chunk_lem func input count i (omega arith),
            submit_accepted shutdown_requested enqueue_task running accepted k part,
            submitted,
          ),
          combine_cons part futures
              ∙ rw rest
                  (sym (traverse-append func (take count (drop i input)) (drop (i + chunk) input)))
              ∙ ap (traverse func) (slice-append-drop i chunk input),
        )
  ]

-- On a pool that has threads and takes every task, and if `when_all` hands over the futures as they
-- are, the future of parallel_transform has what a plain pass over the vector gives: the results in
-- the order of the elements, or the exception of the first element that throws. No index is out of
-- range, and the loop ends.
pub parallel_transform-traverse :
    {T R : Type 0} (func : T → Result R) (shutdown_requested enqueue_task : ℕ → Bool)
    (when_all : List (Result (List R)) → Result (List (Result (List R)))) (size : ℕ)
    (input : List T)
    → ((k : ℕ) → shutdown_requested k ≡ false)
    → ((k : ℕ) → enqueue_task k ≡ true)
    → ((futures : List (Result (List R))) → when_all futures ≡ returned futures)
    → 0 < size
    → parallel_transform shutdown_requested enqueue_task when_all size func input
      ≡ some (returned (traverse func input))
unfolding parallel_transform traverse then_outcome
parallel_transform-traverse func shutdown_requested enqueue_task when_all size [] running accepted
      hands_over pos =
    refl
parallel_transform-traverse func shutdown_requested enqueue_task when_all size (x ∷ input) running
      accepted hands_over pos =
    let count = length (x ∷ input) in
    let (futures, submitted, result) =
      submit_chunks_lem func (x ∷ input) shutdown_requested enqueue_task running accepted
        (max 1 (count / size)) count 0 0 (omega arith) (omega arith) in
    rw (parallel_transform, chunk_size-of_pos count size pos, submitted, hands_over futures)
      (ap (λ r. some (returned r)) result)
