-- ===== src/Tests/Waiting.antt =====
-- Instances of the theorems on loops that wait and on when_any, with clocks and tasks of numbers.
use http_web_framework.Prelude.{
  Bool, List, [], arith, false, get_elem?, inl, leb, length, none, refl, some, suc, true, zero, ℕ,
  ◌*◌, ◌++◌, ◌+◌, ◌<◌, ◌∷◌, ◌≡◌, ◌≤◌, ◌⊎◌,
}
use http_web_framework.Throwing.{
  is_std, Action, Result, Void, modify, returned, threw, user_exception,
}
use http_web_framework.Rounds.{IsFirst}
use http_web_framework.Task.Polling.{wait_for, timed_out, EndsBy, wait_for_ends}
use http_web_framework.Task.WhenAny.{Thread, await_suspend, new_awaiter, run, when_any_impl}
use http_web_framework.Task.WhenAny.Once.{
  IsBeforeExchange, IsResumedOnce, when_any_impl-IsResumedOnce,
}
use http_web_framework.Task.WhenAny.Phases.{IsOutcome}
use http_web_framework.Task.WhenAny.Finished.{IsFair, when_any_impl_resumed}
use http_web_framework.Task.WhenAny.Steps.{occurrences}
use http_web_framework.Task.WhenAny.Undisturbed.{IsGathered}
use http_web_framework.ThreadPool.Periodic.{stopped, submit_periodic, submit_periodic_ends, times}
use http_web_framework.Demo.Server.{main_result}
use http_web_framework.Demo.Server.Statistics.{main_result_lem}

-- A clock that ticks twice between two readings, and a task that is done at the fourth look.
abbrev double_clock : ℕ → ℕ
double_clock k = 2 * k

abbrev done_late : ℕ → Bool
done_late k = leb 3 k

wait_for_late : wait_for double_clock (some done_late) 9 10 ≡ some true
unfolding wait_for http_web_framework.Task.Polling.poll timed_out
wait_for_late = refl

wait_for_early : wait_for double_clock (some done_late) 5 10 ≡ some false
unfolding wait_for http_web_framework.Task.Polling.poll timed_out
wait_for_early = refl

wait_for_ends_example :
    EndsBy done_late
      (λ k. double_clock (suc k))
      (double_clock 0 + 5)
      3
      (wait_for double_clock (some done_late) 5)
wait_for_ends_example = wait_for_ends double_clock done_late 5 3 (inl refl)

abbrev count_up : Action ℕ Void
count_up = modify (λ s. s + 1)

abbrev never : ℕ → Bool
never k = false

submit_periodic_ends_example :
    (k : ℕ) × (k ≤ 3)
    × IsFirst (stopped never done_late) 0 k
    × ((fuel s : ℕ)
        → k < fuel
        → submit_periodic never done_late count_up fuel s ≡ some (times k count_up s))
unfolding stopped
submit_periodic_ends_example = submit_periodic_ends never done_late count_up 3 refl

three_rounds : submit_periodic never done_late count_up 9 10 ≡ some (returned tt, 13)
unfolding submit_periodic http_web_framework.ThreadPool.Periodic.periodic_loop
three_rounds = refl

abbrev two_outcomes : List (Result ℕ)
two_outcomes = returned 5 ∷ threw (user_exception 1) ∷ []

abbrev both_past : List ℕ
both_past = 1 ∷ 0 ∷ 1 ∷ 0 ∷ 1 ∷ []

abbrev to_the_end : List ℕ
to_the_end = 1 ∷ 0 ∷ 0 ∷ []

second_wins :
    when_any_impl false 0 two_outcomes (both_past ++ to_the_end)
    ≡ some (threw (user_exception 1) ∷ [])
unfolding when_any_impl http_web_framework.Task.WhenAny.run_threads
    http_web_framework.Task.WhenAny.is_destroyed http_web_framework.Task.WhenAny.is_active_at
    http_web_framework.Task.WhenAny.step http_web_framework.Task.WhenAny.advance
    http_web_framework.Task.WhenAny.await_suspend http_web_framework.Task.WhenAny.new_awaiter
    http_web_framework.Task.WhenAny.store http_web_framework.Task.WhenAny.resume
    http_web_framework.Task.WhenAny.await_resume
second_wins = refl

abbrev second_alone : List ℕ
second_alone = 1 ∷ 1 ∷ 1 ∷ 1 ∷ 0 ∷ []

-- The first task is still waited for when the coroutine goes on behind the second.
left_behind : when_any_impl false 0 two_outcomes second_alone ≡ none
unfolding when_any_impl http_web_framework.Task.WhenAny.run_threads
    http_web_framework.Task.WhenAny.is_destroyed http_web_framework.Task.WhenAny.is_active_at
    http_web_framework.Task.WhenAny.step http_web_framework.Task.WhenAny.advance
    http_web_framework.Task.WhenAny.await_suspend http_web_framework.Task.WhenAny.new_awaiter
    http_web_framework.Task.WhenAny.store http_web_framework.Task.WhenAny.resume
    http_web_framework.Task.WhenAny.await_resume
left_behind = refl

when_any_impl-IsResumedOnce_example :
    ((resumed : List (Result ℕ)) × (when_any_impl false 0 two_outcomes second_alone ≡ some resumed)
      × IsResumedOnce two_outcomes resumed)
    ⊎ ((early late : List ℕ) × (i : ℕ) × (second_alone ≡ early ++ i ∷ late)
        × (when_any_impl false 0 two_outcomes second_alone ≡ none)
        × ((o : Result ℕ) × IsOutcome two_outcomes o
            × (when_any_impl false 0 two_outcomes early ≡ some (o ∷ [])))
        × ((t : Thread ℕ) × (get_elem? (run early (await_suspend two_outcomes) (new_awaiter 0)).0 i
              ≡ some t)
            × IsBeforeExchange t))
when_any_impl-IsResumedOnce_example = when_any_impl-IsResumedOnce two_outcomes 0 second_alone

both_past-IsGathered : IsGathered two_outcomes both_past
unfolding IsGathered occurrences
both_past-IsGathered = (least, most)
  where
    least : (i : ℕ) → i < length two_outcomes → 2 ≤ occurrences i both_past
    least zero h = omega arith
    least (suc zero) h = omega arith
    least (suc (suc i)) h = absurd (omega arith)

    most : (i : ℕ) → occurrences i both_past ≤ 3
    most zero = omega arith
    most (suc zero) = omega arith
    most (suc (suc i)) = grind arith

both-IsFair : IsFair two_outcomes (both_past ++ to_the_end)
unfolding IsFair occurrences
both-IsFair zero h = omega arith
both-IsFair (suc zero) h = omega arith
both-IsFair (suc (suc i)) h = absurd (omega arith)

when_any_impl_resumed_example :
    (o : Result ℕ) × IsOutcome two_outcomes o
    × (when_any_impl false 0 two_outcomes (both_past ++ to_the_end) ≡ some (o ∷ []))
when_any_impl_resumed_example =
    when_any_impl_resumed two_outcomes 0 both_past to_the_end (omega arith) both_past-IsGathered
      both-IsFair

not_late : (k : ℕ) → k < 3 → (done_late k ≡ false) × (true ≡ true)
not_late k h = (ground arith, refl)

main_result_lem_example :
    (main_result (returned true) done_late (λ k. true) (returned tt) 3 ≡ none)
    × (main_result (returned true) done_late (λ k. true) (returned tt) 9 ≡ some (returned 0))
    × (main_result (returned true) done_late (λ k. true) (threw (user_exception 1)) 9
        ≡ some (returned 1))
    × (main_result (returned false) done_late (λ k. true) (returned tt) 9 ≡ some (returned 1))
    × (main_result (threw (user_exception 1)) done_late (λ k. true) (returned tt) 9
        ≡ some (returned 1))
unfolding is_std
main_result_lem_example =
    main_result_lem done_late (λ k. true) 3 9 (user_exception 1) not_late (inl refl) (omega arith)
      refl
