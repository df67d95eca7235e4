-- ===== src/Tests/Pools.antt =====
-- Instances of the theorems on the thread pool, with two threads.
use http_web_framework.Prelude.{
  List, [], arith, false, if◌then◌else◌, refl, some, true, ℕ, ◌*◌, ◌==◌, ◌∷◌, ◌≡◌,
}
use http_web_framework.Throwing.{Result, Void, returned, threw, user_exception}
use http_web_framework.ThreadPool.{parallel_transform}
use http_web_framework.ThreadPool.Transform.{parallel_transform-traverse, traverse}

abbrev five_numbers : List ℕ
five_numbers = 3 ∷ 1 ∷ 4 ∷ 1 ∷ 5 ∷ []

-- Throws at 4.
abbrev checked_square : ℕ → Result ℕ
checked_square n = if n == 4 then threw (user_exception 4) else returned (n * n)

-- The first exception among the futures, if there is one.
abbrev all_returned : List (Result Void) → Result Void
all_returned [] = returned tt
all_returned (threw e ∷ futures) = threw e
all_returned (returned _ ∷ futures) = all_returned futures

abbrev check_four : ℕ → Result Void
check_four n = if n == 4 then threw (user_exception 4) else returned tt

parallel_transform-traverse_example :
    parallel_transform
      (λ k. false)
      (λ k. true)
      (λ futures. returned futures)
      2
      checked_square
      five_numbers
    ≡ some (returned (traverse checked_square five_numbers))
parallel_transform-traverse_example =
    parallel_transform-traverse checked_square (λ k. false) (λ k. true)
      (λ futures. returned futures) 2 five_numbers (λ k. refl) (λ k. refl) (λ futures. refl)
      (omega arith)
