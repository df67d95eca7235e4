-- ===== src/ThreadPool/Periodic.antt =====
-- submit_periodic of include/core/thread_pool.hpp, as the function that it submits: the two flags of
-- the pool are known by what they say in each round, the task by what it does to a state.
use http_web_framework.Prelude.{
  Bool, Option, ap, arith, if◌then◌else◌, inl, inr, none, not, some, suc, true, zero, ℕ, ◌&&◌, ◌+◌,
  ◌<◌, ◌||◌, ◌∙◌, ◌≡◌, ◌≤◌,
}
use http_web_framework.Throwing.{Action, Result, Result-cases, Void, returned, threw, ◌>>◌}
use http_web_framework.Rounds.{IsFirst, IsFirst-cases, earliest}

module _ {S : Type 0} where
  -- The loop from the round `k` on; `none` is a loop that has not ended within its rounds.
  unfoldable pub periodic_loop :
      (shutdown_requested paused : ℕ → Bool) → Action S Void → ℕ → ℕ → S → Option (Result Void × S)
  periodic_loop shutdown_requested paused task zero k s = none
  periodic_loop shutdown_requested paused task (suc f) k s =
      let (r, s') = task s in
      let rest = periodic_loop shutdown_requested paused task f (suc k) s' in
      let round : Option (Result Void × S) = elim r [
        | returned _ ↦ rest
        | threw e ↦ some (threw e, s')
      ] in
      if not (shutdown_requested k) && not (paused k) then round else some (returned tt, s)

  unfoldable pub submit_periodic :
      (shutdown_requested paused : ℕ → Bool) → Action S Void → ℕ → S → Option (Result Void × S)
  submit_periodic shutdown_requested paused task fuel s =
      periodic_loop shutdown_requested paused task fuel 0 s

  -- A task that is done a number of times in sequence, up to the first time that it throws.
  unfoldable pub times : ℕ → Action S Void → Action S Void
  times zero task s = (returned tt, s)
  times (suc n) task s = (task >> times n task) s

-- One of the flags is set.
unfoldable pub stopped : (shutdown_requested paused : ℕ → Bool) → ℕ → Bool
stopped shutdown_requested paused k = shutdown_requested k || paused k

module _ {S : Type 0} (shutdown_requested paused : ℕ → Bool) (task : Action S Void) where
  periodic_first :
      (d i k fuel : ℕ) (s : S)
      → i + d ≡ k
      → IsFirst (stopped shutdown_requested paused) i k
      → k < i + fuel
      → periodic_loop shutdown_requested paused task fuel i s ≡ some (times d task s)
  unfolding periodic_loop times IsFirst stopped
  periodic_first d i k zero s e h b = absurd (omega arith)
  periodic_first zero i k (suc f) s e h b =
      let j : i ≡ k = omega arith in
      let s : (shutdown_requested i || paused i) ≡ true =
        ap (stopped shutdown_requested paused) j ∙ h.1 in
      ground arith
  periodic_first (suc d) i k (suc f) s e h b =
      elim (IsFirst-cases (stopped shutdown_requested paused) i k h) [
        | inl j ↦ absurd (omega arith)
        | inr (unseen, later) ↦
            let rest = periodic_first d (suc i) k f (task s).1 (omega arith) later (omega arith) in
            elim (Result-cases (task s).0) [ inl (u, o) ↦ ground arith | inr (x, o) ↦ ground arith ]
      ]

  -- If one of the pool's flags is set in some round `m`, the function that submit_periodic submits
  -- ends: there is a first round `k` that finds a flag set, and with any number of rounds that
  -- reaches it the function has done what `k` calls of the task in sequence do, up to the first that
  -- throws, whose exception it ends with. A pause ends it as the shutdown does.
  pub submit_periodic_ends :
      (m : ℕ)
      → stopped shutdown_requested paused m ≡ true
      → (k : ℕ) × (k ≤ m)
        × IsFirst (stopped shutdown_requested paused) 0 k
        × ((fuel : ℕ) (s : S)
            → k < fuel
            → submit_periodic shutdown_requested paused task fuel s ≡ some (times k task s))
  unfolding submit_periodic
  submit_periodic_ends m h =
      let (k, b, first) = earliest (stopped shutdown_requested paused) m 0 m (omega arith) h in
      (k, b, first, λ fuel s c. periodic_first k 0 k fuel s (omega arith) first (omega arith))
