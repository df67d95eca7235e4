-- ===== src/Demo/Server/Statistics.antt =====
-- The text that the handler of /api/v1/stats of src/main.cpp makes, and the end of `main`.
use http_web_framework.Prelude.{
  Bool, List, [], ap, append-nil, append_assoc, arith, false, inl, inr, map, none, refl, some, sym,
  true, ℕ, ◌++◌, ◌<◌, ◌∙◌, ◌∷◌, ◌≡◌, ◌⊎◌,
}
use http_web_framework.Rounds.{look_until, look_until_ends, look_until_unseen}
use http_web_framework.Throwing.{Exception, is_std, returned, threw}
use http_web_framework.Text.{Bytes, codes}
use http_web_framework.Types.{Attribute}
use http_web_framework.Demo.Server.{
  append_stats, leaves_loop, main_block, catch_fatal, main_result, stats_json, visit_value,
}

-- Texts with a comma between any two.
unfoldable pub join : List Bytes → Bytes
join [] = []
join (s ∷ []) = s
join (s ∷ t ∷ ss) = s ++ (codes "," ++ join (t ∷ ss))

-- A member of a JSON object.
unfoldable pub member : (ℕ → Bytes) → Bytes × Attribute → Bytes
member double_text (key, value) =
    codes "\"" ++ (key ++ (codes "\":" ++ visit_value double_text value))

-- What comes behind the first member.
others : (ℕ → Bytes) → List (Bytes × Attribute) → Bytes
others double_text [] = []
others double_text (entry ∷ stats) =
    codes "," ++ (member double_text entry ++ others double_text stats)

append_stats-others :
    (double_text : ℕ → Bytes) (stats : List (Bytes × Attribute)) (json : Bytes)
    → append_stats double_text stats false json ≡ json ++ others double_text stats
unfolding append_stats others member
append_stats-others double_text [] json = sym (append-nil json)
append_stats-others double_text ((key, value) ∷ stats) json =
    let text = visit_value double_text value in
    let named = (json ++ codes ",") ++ (codes "\"" ++ (key ++ codes "\":")) in
    append_stats-others double_text stats (named ++ text) ∙ simp append_assoc

join-others :
    (double_text : ℕ → Bytes) (entry : Bytes × Attribute) (stats : List (Bytes × Attribute))
    → join (map (member double_text) (entry ∷ stats))
      ≡ member double_text entry ++ others double_text stats
unfolding join others
join-others double_text entry [] = sym (append-nil (member double_text entry))
join-others double_text entry (next ∷ stats) =
    ap (λ s. member double_text entry ++ (codes "," ++ s)) (join-others double_text next stats)

-- The loop makes one JSON object: the members of all statistics, in their order, with a comma between
-- any two of them and none before the first or behind the last.
pub stats_json-join :
    (double_text : ℕ → Bytes) (stats : List (Bytes × Attribute))
    → stats_json double_text stats
      ≡ codes "{" ++ (join (map (member double_text) stats) ++ codes "}")
unfolding stats_json append_stats member join
stats_json-join double_text [] = refl
stats_json-join double_text ((key, value) ∷ stats) =
    let text = visit_value double_text value in
    let named = codes "{" ++ (codes "\"" ++ (key ++ codes "\":")) in
    rw
      (
        append_stats-others double_text stats (named ++ text),
        join-others double_text (key, value) stats,
      )
      (simp append_assoc)

leaves_at :
    (shutdown_requested is_running : ℕ → Bool) (m : ℕ)
    → (shutdown_requested m ≡ true) ⊎ (is_running m ≡ false)
    → leaves_loop shutdown_requested is_running m ≡ true
unfolding leaves_loop
leaves_at shutdown_requested is_running m (inl s) = rw s refl
leaves_at shutdown_requested is_running m (inr r) = ground arith

-- Let `m` be the first round of the loop of `main` that finds that a shutdown was requested or that
-- the server is not running. If the server starts and nothing throws, `main` is still in its loop
-- when `m` rounds are over, and returns 0 with any larger number of rounds; if the server does not
-- start it returns 1, and so it does if the setup, the start, or the stop with the output behind it
-- throws a std::exception.
pub main_result_lem :
    (shutdown_requested is_running : ℕ → Bool) (m fuel : ℕ) (e : Exception)
    → ((k : ℕ) → k < m → (shutdown_requested k ≡ false) × (is_running k ≡ true))
    → (shutdown_requested m ≡ true) ⊎ (is_running m ≡ false)
    → m < fuel
    → is_std e ≡ true
    → (main_result (returned true) shutdown_requested is_running (returned tt) m ≡ none)
      × (main_result (returned true) shutdown_requested is_running (returned tt) fuel
          ≡ some (returned 0))
      × (main_result (returned true) shutdown_requested is_running (threw e) fuel
          ≡ some (returned 1))
      × (main_result (returned false) shutdown_requested is_running (returned tt) fuel
          ≡ some (returned 1))
      × (main_result (threw e) shutdown_requested is_running (returned tt) fuel ≡ some (returned 1))
unfolding main_result main_block catch_fatal leaves_loop
main_result_lem shutdown_requested is_running m fuel e stays leaves enough std =
    let event = leaves_loop shutdown_requested is_running in
    let (k, b, first, ends) =
      look_until_ends event m (leaves_at shutdown_requested is_running m leaves) in
    let seen : look_until event fuel 0 ≡ some k = ends fuel (omega arith) in
    let open_loop : look_until event m 0 ≡ none =
      look_until_unseen event m 0 (λ j c d. let (s, r) = stays j (omega arith) in rw (s, r) refl) in
    (
      rw (main_result, main_block, open_loop) refl,
      rw (main_result, main_block, seen) refl,
      rw (main_result, main_block, seen, std) refl,
      refl,
      rw std refl,
    )
