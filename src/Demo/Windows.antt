-- ===== src/Demo/Windows.antt =====
-- How many requests of a client the rate limiter of src/main.cpp lets through.
use http_web_framework.Prelude.{
  Bool-cases, List, [], ap, arith, if◌then◌else◌, inl, inr, min, none, refl, some, ℕ, ◌+◌, ◌<◌, ◌∙◌,
  ◌∷◌, ◌≡◌, ◌≢◌, ◌≤◌,
}
use http_web_framework.Text.{Bytes, same_text, same_text_iff}
use http_web_framework.Types.{Endpoint}
use http_web_framework.Fields.{insert, lookup, lookup-insert}
use http_web_framework.Response.{Response, new_response}
use http_web_framework.Middleware.{Next}
use http_web_framework.Demo.RateLimit.{RateLimits}
use http_web_framework.Demo.Admission.{
  AllBefore, Arrival, admitted, admitted_cons, admitted_from, admitted_nil, answer, answer_late,
  answer_fresh, answer_other, client, requests_of, requests_of_cons, serve_all, unrefused,
}

-- The arrivals that come in the minute from a time on.
abbrev pub AllWithin : ℕ → List Arrival → Type 0
AllWithin t [] = Unit
AllWithin t (a ∷ arrivals) = (t ≤ a.now) × (a.now < t + 60000) × AllWithin t arrivals

within-AllBefore :
    (t : ℕ) (arrivals : List Arrival) → AllWithin t arrivals → AllBefore (t + 60000) arrivals
within-AllBefore t [] h = h
within-AllBefore t (a ∷ arrivals) (_, before, rest) = (before, within-AllBefore t arrivals rest)

module _ (endpoint_text : Endpoint → Bytes) (next : Next) (c : Bytes) where
  -- Of the requests that a client without an entry sends within one minute, in any mixture with the
  -- requests of other clients, exactly the first hundred are not answered with 429, if the handlers
  -- behind the limiter never answer 429 themselves.
  pub admitted_minute :
      (t : ℕ) (arrivals : List Arrival) (m : RateLimits)
      → ((r : Response) → (next r).status_code ≢ 429)
      → lookup c m ≡ none
      → AllWithin t arrivals
      → admitted c (serve_all endpoint_text next arrivals m)
        ≡ min 100 (requests_of endpoint_text next c arrivals)
  admitted_minute t [] m answers h within = admitted_nil endpoint_text next c m
  admitted_minute t (a ∷ arrivals) m answers h (after, before, within) =
      let decided = admitted_cons endpoint_text next c a arrivals m in
      let requests = requests_of_cons endpoint_text next c a arrivals in
      elim (Bool-cases (same_text (client endpoint_text next a) c)) [
        | inr other ↦
            let m' = (answer endpoint_text next a m).1 in
            let kept = answer_other endpoint_text next a m c other ∙ h in
            let ih = admitted_minute t arrivals m' answers kept within in
            rw (decided _ m' refl, requests, other) (ground arith)
        | inl same ↦
            let path = (same_text_iff (client endpoint_text next a) c).0 same in
            let e = answer_fresh endpoint_text next a m (ap (λ d. lookup d m) path ∙ h) in
            let m' = insert (client endpoint_text next a) (1, a.now) m in
            let entry : lookup c m' ≡ some (1, a.now) =
              lookup-insert (client endpoint_text next a) c (1, a.now) m ∙ rw same refl in
            let rest =
              admitted_from endpoint_text next c 1 a.now (t + 60000) arrivals m' answers entry
                (ground arith) (ground arith) (within-AllBefore t arrivals within) in
            let u = unrefused (next (new_response a.now)) (answers (new_response a.now)) in
            rw (decided (next (new_response a.now)) m' e, requests, same, u) (ground arith)
      ]

  -- A request that comes a minute or more after the time recorded for its client is handled and
  -- starts a new minute for the client, whatever was counted before; the entry of every other
  -- client stays.
  pub answer-renews :
      (a : Arrival) (m : RateLimits) (count last : ℕ)
      → lookup (client endpoint_text next a) m ≡ some (count, last)
      → last + 60000 ≤ a.now
      → ((answer endpoint_text next a m).0 ≡ next (new_response a.now))
        × (lookup c (answer endpoint_text next a m).1
            ≡ (if same_text (client endpoint_text next a) c then some (1, a.now) else lookup c m))
  answer-renews a m count last h late =
      let e = answer_late endpoint_text next a m count last h late in
      (ap (λ p. p.0) e, rw e (lookup-insert (client endpoint_text next a) c (1, a.now) m))
