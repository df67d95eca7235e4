-- ===== src/Server.antt =====
-- include/core/server.hpp: the services that a server keeps by their types. A type is known by its
-- index, a service by its pointer.
pub mod Services
use http_web_framework.Prelude.{List, Option, [], if◌then◌else◌, none, some, ℕ, ◌==◌, ◌∷◌}

-- `hash_map<std::type_index, shared_ptr<void>>`, with the entry of each type once.
abbrev pub Services : Type 0
Services = List (ℕ × ℕ)

-- `services_[type] = service`
unfoldable pub register_service : ℕ → ℕ → Services → Services
register_service type_id service [] = (type_id, service) ∷ []
register_service type_id service ((t, s) ∷ services) =
    let rest = register_service type_id service services in
    if type_id == t then (t, service) ∷ services else (t, s) ∷ rest

-- `none` is the null pointer.
unfoldable pub get_service : ℕ → Services → Option ℕ
get_service type_id [] = none
get_service type_id ((t, s) ∷ services) =
    let rest = get_service type_id services in if type_id == t then some s else rest
