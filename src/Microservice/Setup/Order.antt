-- ===== src/Microservice/Setup/Order.antt =====
-- What the order of the setups in the constructor of examples/modern_microservice.cpp decides.
use mathlib.Core.Option
use http_web_framework.Prelude.{
  All, List, Option, Option-cases, [], ap, arith, inl, inr, none, refl, some, sym, ◌++◌, ◌∙◌, ◌∷◌,
  ◌≡◌, ◌≢◌,
}
use http_web_framework.Microservice.Setup.{
  Members, Setup, UserService, breaker, event_sourcing, graphql, grpc, http, setup, setup_all,
  setup_circuit_breaker, setup_event_sourcing, setup_graphql, setup_grpc_server, setup_http_server,
  setup_sse_streaming, sse, tracing,
}

-- No setup makes another service.
unfoldable pub IsOther : Setup → Type 0
IsOther s = s ≢ event_sourcing

-- The service of the members behind a setup.
service_behind : Option UserService → Option Members → Option UserService
service_behind d none = d
service_behind d (some m) = m.user_service

keeps_service :
    (s : Setup) (m m' : Members)
    → IsOther s
    → setup s m ≡ some m'
    → m'.user_service ≡ m.user_service
unfolding IsOther setup setup_circuit_breaker setup_http_server setup_graphql setup_grpc_server
    setup_sse_streaming service_behind
keeps_service tracing m m' o h = ap (service_behind none) (sym h)
keeps_service event_sourcing m m' o h = absurd (o refl)
keeps_service breaker m m' o h = ap (service_behind none) (sym h)
keeps_service http m m' o h = ap (service_behind none) (sym h)
keeps_service graphql m m' o h = elim (Option-cases m.router) [
  | inl e ↦ ground arith
  | inr (r, e) ↦ ap (service_behind none) (sym h) ∙ rw e refl
]
keeps_service grpc m m' o h = ap (service_behind none) (sym h)
keeps_service sse m m' o h = elim (Option-cases m.router) [
  | inl e ↦ ground arith
  | inr (r, e) ↦ ap (service_behind none) (sym h) ∙ rw e refl
]

service_kept :
    (steps : List Setup) (m m' : Members)
    → All IsOther steps
    → setup_all steps m ≡ some m'
    → m'.user_service ≡ m.user_service
unfolding setup_all
service_kept [] m m' o h = ground arith
service_kept (s ∷ steps) m m' (o, os) h = elim (Option-cases (setup s m)) [
  | inl e ↦ ground arith
  | inr (m1, e) ↦ service_kept steps m1 m' os (ground arith) ∙ keeps_service s m m1 o e
]

setup_all-append :
    (xs ys : List Setup) (m m2 : Members)
    → setup_all (xs ++ ys) m ≡ some m2
    → (m1 : Members) × (setup_all xs m ≡ some m1) × (setup_all ys m1 ≡ some m2)
unfolding setup_all
setup_all-append [] ys m m2 h = (m, refl, h)
setup_all-append (s ∷ xs) ys m m2 h = elim (Option-cases (setup s m)) [
  | inl e ↦ ground arith
  | inr (m', e) ↦
      let (m1, before, behind) = setup_all-append xs ys m' m2 (ground arith) in
      (m1, ground arith, behind)
]

-- In whatever order the setups run, if they come to an end without going through a null pointer, the
-- last service that is made goes on with the pointer to the circuit breaker that the member held
-- when its setup_event_sourcing ran: a breaker that is made later does not reach it.
pub setup_all-user_service :
    (before behind : List Setup) (m m2 : Members)
    → All IsOther behind
    → setup_all (before ++ event_sourcing ∷ behind) m ≡ some m2
    → (m1 : Members) × (setup_all before m ≡ some m1)
      × (Option.map (λ (s : UserService). s.circuit_breaker) m2.user_service
          ≡ some m1.circuit_breaker)
unfolding setup_all setup setup_event_sourcing
setup_all-user_service before behind m m2 o h =
    let (m1, first, last) = setup_all-append before (event_sourcing ∷ behind) m m2 h in
    (
      m1,
      first,
      ap (Option.map (λ (s : UserService). s.circuit_breaker))
          (service_kept behind (setup_event_sourcing m1) m2 o last),
    )
