-- ===== src/Server/Services.antt =====
-- The services of include/core/server.hpp, behind registrations.
use http_web_framework.Prelude.{[], arith, if◌then◌else◌, some, ℕ, ◌==◌, ◌∷◌, ◌≡◌}
use http_web_framework.Server.{Services, get_service, register_service}

-- A service that was registered is found under its type, whatever was registered before under that
-- type, and under every other type the service is found that was found before.
pub get_service-register_service :
    (t type_id service : ℕ) (services : Services)
    → get_service t (register_service type_id service services)
      ≡ (if t == type_id then some service else get_service t services)
unfolding get_service register_service
get_service-register_service t type_id service [] = ground arith
get_service-register_service t type_id service ((u, s) ∷ services) =
    let rest = get_service-register_service t type_id service services in ground arith
