-- ===== src/Task/Polling.antt =====
-- The loops of include/async/task.hpp that wait for a task by looking at it again and again. The
-- handle is known by what `done()` says at each look, and the steady clock by what it reads: first
-- at the start, if the call reads it there, and then once in each round. `none` is a loop that has
-- not ended within its rounds.
use http_web_framework.Prelude.{
  Bool, Bool-cases, Option, ap, arith, false, if◌then◌else◌, inl, inr, ltb, ltb→lt, lt→ltb, none,
  refl, some, suc, sym, true, zero, ℕ, ◌+◌, ◌-◌, ◌<◌, ◌||◌, ◌∙◌, ◌≡◌, ◌≤◌, ◌⊎◌,
}
use http_web_framework.Rounds.{IsFirst, IsFirst-cases, earliest, look_until, look_until_ends}

-- A null handle, or what `handle_.done()` says at each look.
abbrev pub Handle : Type 0
Handle = Option (ℕ → Bool)

unfoldable pub is_ready : Handle → Bool
is_ready none = false
is_ready (some done) = done 0

-- How often `wait` yields.
unfoldable pub wait : Handle → ℕ → Option ℕ
wait none fuel = some 0
wait (some done) fuel = look_until done fuel 0

-- The loop that wait_for and wait_until have, from the round `k` on.
unfoldable pub poll : (done expired : ℕ → Bool) → ℕ → ℕ → Option Bool
poll done expired zero k = none
poll done expired (suc f) k =
    let rest = poll done expired f (suc k) in
    if done k then some true else if expired k then some false else rest

-- `std::chrono::steady_clock::now() - start > timeout` in the round `k`.
unfoldable pub timed_out : (ℕ → ℕ) → ℕ → ℕ → Bool
timed_out clock timeout k = ltb timeout (clock (suc k) - clock 0)

unfoldable pub wait_for : (ℕ → ℕ) → Handle → ℕ → ℕ → Option Bool
wait_for clock none timeout fuel = some true
wait_for clock (some done) timeout fuel = poll done (timed_out clock timeout) fuel 0

unfoldable pub wait_until : (ℕ → ℕ) → Handle → ℕ → ℕ → Option Bool
wait_until clock none abs_time fuel = some true
wait_until clock (some done) abs_time fuel = poll done (λ k. ltb abs_time (clock k)) fuel 0

-- What either loop sees in a round.
unfoldable pub sees : (done expired : ℕ → Bool) → ℕ → Bool
sees done expired k = done k || expired k

poll_first :
    (done expired : ℕ → Bool) (i k fuel : ℕ)
    → IsFirst (sees done expired) i k
    → k < i + fuel
    → poll done expired fuel i ≡ some (done k)
unfolding poll IsFirst sees
poll_first done expired i k zero h b = absurd (omega (arith, h.0))
poll_first done expired i k (suc f) h b = elim (IsFirst-cases (sees done expired) i k h) [
  | inl e ↦ let s : (done i || expired i) ≡ true = ap (sees done expired) e ∙ h.1 in ground arith
  | inr (unseen, later) ↦
      let rest = poll_first done expired (suc i) k f later (omega arith) in ground arith
]

-- There is a first round, at most the round `m`, in which the task is done or `now` is past the limit,
-- and any number of rounds that reaches it gives whether the task was done in that round.
unfoldable pub EndsBy : (ℕ → Bool) → (ℕ → ℕ) → ℕ → ℕ → (ℕ → Option Bool) → Type 0
EndsBy done now limit m run =
    (k : ℕ) × (k ≤ m)
    × ((j : ℕ) → j < k → (done j ≡ false) × (now j ≤ limit))
    × ((done k ≡ true) ⊎ (limit < now k))
    × ((fuel : ℕ) → k < fuel → run fuel ≡ some (done k))

module _ (done expired : ℕ → Bool) (now : ℕ → ℕ) (limit : ℕ)
    (reads : (j : ℕ) → expired j ≡ ltb limit (now j)) where
  ends-sees : (m : ℕ) → (done m ≡ true) ⊎ (limit < now m) → sees done expired m ≡ true
  unfolding sees
  ends-sees m (inl d) = rw d refl
  ends-sees m (inr late) = let e = reads m ∙ lt→ltb limit (now m) late in ground arith

  sees-ends : (m : ℕ) → sees done expired m ≡ true → (done m ≡ true) ⊎ (limit < now m)
  unfolding sees
  sees-ends m h = elim (Bool-cases (done m)) [
    | inl y ↦ inl y
    | inr n ↦
        let e : expired m ≡ true = ground arith in inr (ltb→lt limit (now m) (sym (reads m) ∙ e))
  ]

  unseen : (j : ℕ) → sees done expired j ≡ false → (done j ≡ false) × (now j ≤ limit)
  unfolding sees
  unseen j h =
      let d : done j ≡ false = ground arith in
      let e : expired j ≡ false = ground arith in
      let e' : ltb limit (now j) ≡ false = sym (reads j) ∙ e in (d, ground arith)

  poll-EndsBy :
      (m : ℕ)
      → (done m ≡ true) ⊎ (limit < now m)
      → EndsBy done now limit m (λ fuel. poll done expired fuel 0)
  unfolding EndsBy IsFirst
  poll-EndsBy m h =
      let (k, b, first) = earliest (sees done expired) m 0 m (omega arith) (ends-sees m h) in
      (
        k,
        b,
        λ j c. unseen j (first.2 j (omega arith) c),
        sees-ends k first.1,
        λ fuel c. poll_first done expired 0 k fuel first (omega arith),
      )

timed_out-ltb :
    (clock : ℕ → ℕ) (timeout k : ℕ)
    → timed_out clock timeout k ≡ ltb (clock 0 + timeout) (clock (suc k))
unfolding timed_out
timed_out-ltb clock timeout k = ground arith

-- `wait` ends if the task is done at some look, with the first look that finds it done: it yields as
-- often as the task was not done before, and any larger number of rounds is enough.
pub wait_ends :
    (done : ℕ → Bool) (m : ℕ)
    → done m ≡ true
    → (k : ℕ) × (k ≤ m)
      × IsFirst done 0 k
      × ((fuel : ℕ) → k < fuel → wait (some done) fuel ≡ some k)
unfolding wait
wait_ends done m h = look_until_ends done m h

-- If in some round `m` the task is done or the clock reads more than the timeout past its first
-- reading, `wait_for` ends: there is a first such round, at most `m`, and with any number of rounds
-- that reaches it the result is whether the task was done in that round.
pub wait_for_ends :
    (clock : ℕ → ℕ) (done : ℕ → Bool) (timeout m : ℕ)
    → (done m ≡ true) ⊎ (clock 0 + timeout < clock (suc m))
    → EndsBy done (λ k. clock (suc k)) (clock 0 + timeout) m (wait_for clock (some done) timeout)
unfolding wait_for
wait_for_ends clock done timeout m h =
    poll-EndsBy done (timed_out clock timeout) (λ k. clock (suc k)) (clock 0 + timeout)
      (timed_out-ltb clock timeout) m h

-- `wait_until` ends in the same way, with the first round in which the task was done or the clock
-- was past `abs_time`.
pub wait_until_ends :
    (clock : ℕ → ℕ) (done : ℕ → Bool) (abs_time m : ℕ)
    → (done m ≡ true) ⊎ (abs_time < clock m)
    → EndsBy done clock abs_time m (wait_until clock (some done) abs_time)
unfolding wait_until
wait_until_ends clock done abs_time m h =
    poll-EndsBy done (λ k. ltb abs_time (clock k)) clock abs_time (λ j. refl) m h
