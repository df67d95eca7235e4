-- ===== src/Rounds.antt =====
-- The rounds of the loops of include/async/task.hpp and include/core/thread_pool.hpp that look at
-- something again and again until they see it.
use http_web_framework.Prelude.{
  Bool, Bool-cases, Option, ap, arith, false, if◌then◌else◌, inl, inr, ltb, ltb→lt, none, refl,
  some, suc, true, zero, ℕ, ◌+◌, ◌<◌, ◌∙◌, ◌≡◌, ◌≤◌, ◌⊎◌,
}

-- The round `k` is the first from `i` on in which `event` is seen.
unfoldable pub IsFirst : (ℕ → Bool) → ℕ → ℕ → Type 0
IsFirst event i k = (i ≤ k) × (event k ≡ true) × ((j : ℕ) → i ≤ j → j < k → event j ≡ false)

-- The first round is this one, or this one shows nothing.
pub IsFirst-cases :
    (event : ℕ → Bool) (i k : ℕ)
    → IsFirst event i k
    → (i ≡ k) ⊎ ((event i ≡ false) × IsFirst event (suc i) k)
unfolding IsFirst
IsFirst-cases event i k (b, e, before) = elim (Bool-cases (ltb i k)) [
  | inl y ↦
      let q = ltb→lt i k y in
      inr (before i (omega arith) q, (omega arith, e, λ j c d. before j (omega arith) d))
  | inr n ↦ inl (ground arith)
]

not_before :
    (event : ℕ → Bool) (i k : ℕ)
    → event i ≡ false
    → ((j : ℕ) → suc i ≤ j → j < k → event j ≡ false)
    → (j : ℕ) → i ≤ j
    → j < k
    → event j ≡ false
not_before event i k h before j b d = elim (Bool-cases (ltb i j)) [
  | inl y ↦ let q = ltb→lt i j y in before j (omega arith) d
  | inr n ↦ let e : j ≡ i = ground arith in ap event e ∙ h
]

-- Up to a round that shows the event there is a first one.
pub earliest :
    (event : ℕ → Bool) (n i m : ℕ)
    → i + n ≡ m
    → event m ≡ true
    → (k : ℕ) × (k ≤ m) × IsFirst event i k
unfolding IsFirst
earliest event zero i m h e = (m, omega arith, (omega arith, e, λ j b c. absurd (omega arith)))
earliest event (suc n) i m h e = elim (Bool-cases (event i)) [
  | inl y ↦ (i, omega arith, (omega arith, y, λ j b c. absurd (omega arith)))
  | inr f ↦
      let (k, b, (c, s, before)) = earliest event n (suc i) m (omega arith) e in
      (k, b, (omega arith, s, not_before event i k f before))
]

-- `while (!event) { ... }`, from the round `k` on: the round that ends it, or `none` if the rounds
-- run out.
unfoldable pub look_until : (ℕ → Bool) → ℕ → ℕ → Option ℕ
look_until event zero k = none
look_until event (suc f) k =
    let rest = look_until event f (suc k) in if event k then some k else rest

look_until_first :
    (event : ℕ → Bool) (i k fuel : ℕ)
    → IsFirst event i k
    → k < i + fuel
    → look_until event fuel i ≡ some k
unfolding look_until IsFirst
look_until_first event i k zero h b = absurd (omega (arith, h.0))
look_until_first event i k (suc f) h b = elim (IsFirst-cases event i k h) [
  | inl e ↦ ground arith
  | inr (unseen, later) ↦
      let rest = look_until_first event (suc i) k f later (omega arith) in ground arith
]

-- While no round sees the event, the loop goes on.
pub look_until_unseen :
    (event : ℕ → Bool) (fuel i : ℕ)
    → ((j : ℕ) → i ≤ j → j < i + fuel → event j ≡ false)
    → look_until event fuel i ≡ none
unfolding look_until
look_until_unseen event zero i h = refl
look_until_unseen event (suc f) i h =
    let here = h i (omega arith) (omega arith) in
    let rest = look_until_unseen event f (suc i) (λ j b c. h j (omega arith) (omega arith)) in
    ground arith

-- The loop ends with the first round that sees the event, if some round does.
pub look_until_ends :
    (event : ℕ → Bool) (m : ℕ)
    → event m ≡ true
    → (k : ℕ) × (k ≤ m)
      × IsFirst event 0 k
      × ((fuel : ℕ) → k < fuel → look_until event fuel 0 ≡ some k)
look_until_ends event m h =
    let (k, b, first) = earliest event m 0 m (omega arith) h in
    (k, b, first, λ fuel c. look_until_first event 0 k fuel first (omega arith))
