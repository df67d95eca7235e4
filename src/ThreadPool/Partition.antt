-- ===== src/ThreadPool/Partition.antt =====
-- The division of a range by parallel_for of include/core/thread_pool.hpp.
use http_web_framework.Prelude.{
  Bool, List, [], arith, drop, false, length, map, max, min, some, suc, take, true, zero, ℕ, ◌++◌,
  ◌/◌, ◌<◌, ◌∷◌, ◌≡◌, ◌≤◌,
}
use http_web_framework.Throwing.{Result, Void, returned}
use http_web_framework.ThreadPool.{chunk_size, run_range, submit}

abbrev pub flatten : {T : Type 0} → List (List T) → List T
flatten [] = []
flatten (c ∷ cs) = c ++ flatten cs

-- A range in parts of at most `chunk` elements, from `begin` on.
split_range : {T : Type 0} → ℕ → ℕ → List T → List (List T)
split_range zero chunk range = []
split_range (suc f) chunk [] = []
split_range (suc f) chunk (x ∷ range) =
    let count = min chunk (length (x ∷ range)) in
    take count (x ∷ range) ∷ split_range f chunk (drop count (x ∷ range))

module _ {T : Type 0} where
  -- A task has something to do, and not more than a chunk.
  abbrev pub IsChunk : ℕ → List T → Type 0
  IsChunk chunk c = (0 < length c) × (length c ≤ chunk)

pub chunk_size-of_pos :
    (count size : ℕ) → 0 < size → chunk_size count size ≡ some (max 1 (count / size))
unfolding chunk_size
chunk_size-of_pos count size pos = ground arith

module _ (shutdown_requested enqueue_task : ℕ → Bool)
    (running : (k : ℕ) → shutdown_requested k ≡ false)
    (accepted : (k : ℕ) → enqueue_task k ≡ true) where
  pub submit_accepted :
      {A : Type 0} (k : ℕ) (r : Result A)
      → submit (shutdown_requested k) (enqueue_task k) r ≡ returned r
  unfolding submit
  submit_accepted k r = rw (running k, accepted k)

-- The future that parallel_for gives for its tasks; for none it does not call `when_all`.
abbrev pub future_of :
    {T : Type 0}
    → (List (Result Void) → Result Void)
    → (T → Result Void)
    → List (List T)
    → Result Void
future_of when_all func [] = returned tt
future_of when_all func (c ∷ tasks) = when_all (map (run_range func) (c ∷ tasks))
