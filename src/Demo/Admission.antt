-- ===== src/Demo/Admission.antt =====
-- What the rate limiter of src/main.cpp lets through: rate_limit_middleware, one request after the
-- other.
use http_web_framework.Prelude.{
  Bool, Bool-cases, List, Option-cases, [], ap, arith, false, gt→leb, if◌then◌else◌, inl, inr, leb,
  leb→le, le→leb, ltb, min, none, not, refl, some, suc, true, ℕ, ◌&&◌, ◌+◌, ◌<◌, ◌==◌, ◌∙◌, ◌∷◌,
  ◌≡◌, ◌≢◌, ◌≤◌,
}
use http_web_framework.Text.{Bytes, codes, same_text, same_text_iff}
use http_web_framework.Types.{Endpoint}
use http_web_framework.Fields.{insert, lookup, lookup-insert}
use http_web_framework.Request.{Request}
use http_web_framework.Response.{Response, new_response}
use http_web_framework.Response.Body.{send_error}
use http_web_framework.Response.Pages.{send_error-IsErrorPage}
use http_web_framework.Middleware.{Next}
use http_web_framework.Demo.RateLimit.{RateLimits, minutes_between, rate_limit_middleware}

pub record Arrival : Type 0 where
  pub request : Request
  pub now : ℕ

-- The entries of a list that pass a test.
count_if {ℓ} : {A : Type ℓ} → (A → Bool) → List A → ℕ
count_if test [] = 0
count_if test (a ∷ l) = let rest = count_if test l in if test a then suc rest else rest

-- Within a minute of the recorded time, also when the clock is behind it.
within_minute : (now last : ℕ) → now < last + 60000 → ltb (minutes_between now last) 1 ≡ true
within_minute now last h = ground arith

minute_over : (now last : ℕ) → last + 60000 ≤ now → ltb (minutes_between now last) 1 ≡ false
minute_over now last h = ground arith

-- The arrivals that come before a time.
abbrev pub AllBefore : ℕ → List Arrival → Type 0
AllBefore t [] = Unit
AllBefore t (a ∷ arrivals) = (a.now < t) × AllBefore t arrivals

module _ (endpoint_text : Endpoint → Bytes) (next : Next) where
  unfoldable pub client : Arrival → Bytes
  client a = endpoint_text a.request.remote_endpoint

  pub answer : Arrival → RateLimits → Response × RateLimits
  answer a m = rate_limit_middleware endpoint_text a.now a.request next m (new_response a.now)

  -- The answers to requests that come one after the other, each with its client.
  pub serve_all : List Arrival → RateLimits → List (Bytes × Response)
  serve_all [] m = []
  serve_all (a ∷ arrivals) m = let (res, m') = answer a m in (client a, res) ∷ serve_all arrivals m'

  pub answer_full :
      (a : Arrival) (m : RateLimits) (count last : ℕ)
      → lookup (client a) m ≡ some (count, last)
      → a.now < last + 60000
      → 100 ≤ count
      → answer a m ≡ (send_error 429 (codes "Too Many Requests") (new_response a.now), m)
  unfolding answer client rate_limit_middleware
  answer_full a m count last h window full =
      rw (rate_limit_middleware, h, within_minute a.now last window, le→leb 100 count full)

  pub answer_early :
      (a : Arrival) (m : RateLimits) (count last : ℕ)
      → lookup (client a) m ≡ some (count, last)
      → a.now < last + 60000
      → count < 100
      → answer a m ≡ (next (new_response a.now), insert (client a) (count + 1, last) m)
  unfolding answer client rate_limit_middleware
  answer_early a m count last h window free =
      rw (rate_limit_middleware, h, within_minute a.now last window, gt→leb 100 count free)

  pub answer_late :
      (a : Arrival) (m : RateLimits) (count last : ℕ)
      → lookup (client a) m ≡ some (count, last)
      → last + 60000 ≤ a.now
      → answer a m ≡ (next (new_response a.now), insert (client a) (1, a.now) m)
  unfolding answer client rate_limit_middleware
  answer_late a m count last h late = rw (rate_limit_middleware, h, minute_over a.now last late)

  pub answer_fresh :
      (a : Arrival) (m : RateLimits)
      → lookup (client a) m ≡ none
      → answer a m ≡ (next (new_response a.now), insert (client a) (1, a.now) m)
  unfolding answer client rate_limit_middleware
  answer_fresh a m h = rw (rate_limit_middleware, h)

  pub answer_other :
      (a : Arrival) (m : RateLimits) (c : Bytes)
      → same_text (client a) c ≡ false
      → lookup c (answer a m).1 ≡ lookup c m
  unfolding answer client rate_limit_middleware
  answer_other a m c h = elim (Option-cases (lookup (client a) m)) [
    | inl e ↦ ground (arith, lookup-insert (client a) c (1, a.now) m)
    | inr ((count, last), e) ↦ ground (
      arith,
      lookup-insert (client a) c (1, a.now) m,
      lookup-insert (client a) c (count + 1, last) m,
    )
  ]

-- The answers to a client that do not refuse it.
pub admitted : Bytes → List (Bytes × Response) → ℕ
admitted c answers = count_if (λ (d, res). same_text d c && not (res.status_code == 429)) answers

module _ (endpoint_text : Endpoint → Bytes) (next : Next) where
  -- The requests that come from a client.
  pub requests_of : Bytes → List Arrival → ℕ
  requests_of c arrivals = count_if (λ a. same_text (client endpoint_text next a) c) arrivals

pub unrefused : (r : Response) → r.status_code ≢ 429 → not (r.status_code == 429) ≡ true
unrefused r h = ground arith

refused :
    (message : Bytes) (r : Response) → not ((send_error 429 message r).status_code == 429) ≡ false
refused message r = rw (send_error-IsErrorPage 429 message r).status refl

module _ (endpoint_text : Endpoint → Bytes) (next : Next) (c : Bytes) where
  pub admitted_cons :
      (a : Arrival) (arrivals : List Arrival) (m : RateLimits) (res : Response) (m' : RateLimits)
      → answer endpoint_text next a m ≡ (res, m')
      → admitted c (serve_all endpoint_text next (a ∷ arrivals) m)
        ≡ (if same_text (client endpoint_text next a) c && not (res.status_code == 429)
            then 1
            else 0)
          + admitted c (serve_all endpoint_text next arrivals m')
  unfolding admitted serve_all count_if
  admitted_cons a arrivals m res m' e = rw e (ground arith)

  pub requests_of_cons :
      (a : Arrival) (arrivals : List Arrival)
      → requests_of endpoint_text next c (a ∷ arrivals)
        ≡ (if same_text (client endpoint_text next a) c then 1 else 0)
          + requests_of endpoint_text next c arrivals
  unfolding requests_of count_if
  requests_of_cons a arrivals = ground arith

  pub admitted_nil :
      (m : RateLimits)
      → admitted c (serve_all endpoint_text next [] m)
        ≡ min 100 (requests_of endpoint_text next c [])
  unfolding admitted requests_of serve_all count_if
  admitted_nil m = ground arith

  pub admitted_from :
      (count last t : ℕ) (arrivals : List Arrival) (m : RateLimits)
      → ((r : Response) → (next r).status_code ≢ 429)
      → lookup c m ≡ some (count, last)
      → count ≤ 100
      → t ≤ last + 60000
      → AllBefore t arrivals
      → count + admitted c (serve_all endpoint_text next arrivals m)
        ≡ min 100 (count + requests_of endpoint_text next c arrivals)
  unfolding admitted requests_of serve_all count_if
  admitted_from count last t [] m answers h bound window before = ground arith
  admitted_from count last t (a ∷ arrivals) m answers h bound window (now, before) =
      let decided = admitted_cons a arrivals m in
      elim (Bool-cases (same_text (client endpoint_text next a) c)) [
        | inr other ↦
            let m' = (answer endpoint_text next a m).1 in
            let kept = answer_other endpoint_text next a m c other ∙ h in
            let ih = admitted_from count last t arrivals m' answers kept bound window before in
            rw (decided _ m' refl, requests_of_cons a arrivals, other) (ground arith)
        | inl same ↦
            let path = (same_text_iff (client endpoint_text next a) c).0 same in
            let h' = ap (λ d. lookup d m) path ∙ h in
            let early : a.now < last + 60000 = ground arith in
            elim (Bool-cases (leb 100 count)) [
              | inl full ↦
                  let e =
                    answer_full endpoint_text next a m count last h' early
                      (leb→le 100 count full) in
                  let ih = admitted_from count last t arrivals m answers h bound window before in
                  let r = refused (codes "Too Many Requests") (new_response a.now) in
                  rw
                    (
                      decided (send_error 429 (codes "Too Many Requests") (new_response a.now)) m e,
                      requests_of_cons a arrivals,
                      same,
                      r,
                    )
                    (ground (arith, leb→le 100 count full))
              | inr free ↦
                  let m' = insert (client endpoint_text next a) (count + 1, last) m in
                  let less : count < 100 = ground arith in
                  let e = answer_early endpoint_text next a m count last h' early less in
                  let entry : lookup c m' ≡ some (count + 1, last) =
                    lookup-insert (client endpoint_text next a) c (count + 1, last) m
                    ∙ rw same refl in
                  let ih =
                    admitted_from (count + 1) last t arrivals m' answers entry (ground arith) window
                      before in
                  let u = unrefused (next (new_response a.now)) (answers (new_response a.now)) in
                  rw
                    (decided (next (new_response a.now)) m' e, requests_of_cons a arrivals, same, u)
                    (ground arith)
            ]
      ]
