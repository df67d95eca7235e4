-- ===== src/Logger/Filtered.antt =====
-- What passes the level of a logger of include/utils/logger.hpp.
use http_web_framework.Prelude.{
  Bool, Bool-cases, List, [], arith, false, if◌then◌else◌, inl, inr, le→leb, leb, refl, true, ◌∙◌,
  ◌∷◌, ◌≡◌,
}
use http_web_framework.Text.{Bytes}
use http_web_framework.Types.{ℤ}
use http_web_framework.Logger.{
  Config, LogLevel, Sink, debug, debug_level, error, error_level, fatal, fatal_level, info,
  info_level, level_number, log_formatted, log_with_location, set_level, should_log, trace,
  trace_level, warn, warn_level,
}

-- The calls that an application makes.
pub data Call : Type 0 where
  at_level : LogLevel → Bytes → Call
  by_log : LogLevel → Bytes → Call
  at_location : LogLevel → Bytes → Bytes → ℤ → Bytes → Call

unfoldable pub level_of : Call → LogLevel
level_of (at_level level text) = level
level_of (by_log level text) = level
level_of (at_location level text file line function) = level

-- The member function for a level.
unfoldable pub at : {S : Type 0} → Sink S → Config → LogLevel → Bytes → S → S
at sink config trace_level = trace sink config
at sink config debug_level = debug sink config
at sink config info_level = info sink config
at sink config warn_level = warn sink config
at sink config error_level = error sink config
at sink config fatal_level = fatal sink config

unfoldable pub call : {S : Type 0} → Sink S → Config → Call → S → S
call sink config (at_level level text) = at sink config level text
call sink config (by_log level text) = log_formatted sink config level text
call sink config (at_location level text file line function) =
    log_with_location sink config level text file line function

unfoldable pub call_all : {S : Type 0} → Sink S → Config → List Call → S → S
call_all sink config [] s = s
call_all sink config (c ∷ calls) s = call_all sink config calls (call sink config c s)

-- Whether the first level is at least as severe as the second, in the order in which the enumeration
-- lists them.
unfoldable pub at_least : LogLevel → LogLevel → Bool
at_least level trace_level = true
at_least trace_level debug_level = false
at_least debug_level debug_level = true
at_least info_level debug_level = true
at_least warn_level debug_level = true
at_least error_level debug_level = true
at_least fatal_level debug_level = true
at_least trace_level info_level = false
at_least debug_level info_level = false
at_least info_level info_level = true
at_least warn_level info_level = true
at_least error_level info_level = true
at_least fatal_level info_level = true
at_least trace_level warn_level = false
at_least debug_level warn_level = false
at_least info_level warn_level = false
at_least warn_level warn_level = true
at_least error_level warn_level = true
at_least fatal_level warn_level = true
at_least trace_level error_level = false
at_least debug_level error_level = false
at_least info_level error_level = false
at_least warn_level error_level = false
at_least error_level error_level = true
at_least fatal_level error_level = true
at_least trace_level fatal_level = false
at_least debug_level fatal_level = false
at_least info_level fatal_level = false
at_least warn_level fatal_level = false
at_least error_level fatal_level = false
at_least fatal_level fatal_level = true

leb-at_least :
    (level minimum : LogLevel)
    → leb (level_number minimum) (level_number level) ≡ at_least level minimum
unfolding at_least level_number
leb-at_least level trace_level = le→leb 0 (level_number level) (omega arith)
leb-at_least trace_level debug_level = refl
leb-at_least debug_level debug_level = refl
leb-at_least info_level debug_level = refl
leb-at_least warn_level debug_level = refl
leb-at_least error_level debug_level = refl
leb-at_least fatal_level debug_level = refl
leb-at_least trace_level info_level = refl
leb-at_least debug_level info_level = refl
leb-at_least info_level info_level = refl
leb-at_least warn_level info_level = refl
leb-at_least error_level info_level = refl
leb-at_least fatal_level info_level = refl
leb-at_least trace_level warn_level = refl
leb-at_least debug_level warn_level = refl
leb-at_least info_level warn_level = refl
leb-at_least warn_level warn_level = refl
leb-at_least error_level warn_level = refl
leb-at_least fatal_level warn_level = refl
leb-at_least trace_level error_level = refl
leb-at_least debug_level error_level = refl
leb-at_least info_level error_level = refl
leb-at_least warn_level error_level = refl
leb-at_least error_level error_level = refl
leb-at_least fatal_level error_level = refl
leb-at_least trace_level fatal_level = refl
leb-at_least debug_level fatal_level = refl
leb-at_least info_level fatal_level = refl
leb-at_least warn_level fatal_level = refl
leb-at_least error_level fatal_level = refl
leb-at_least fatal_level fatal_level = refl

should_log-at_least :
    (level : LogLevel) (config : Config) → should_log level config ≡ at_least level config.level
unfolding should_log
should_log-at_least level config = leb-at_least level config.level

-- The calls whose level is at least the configuration's.
unfoldable pub passing : Config → List Call → List Call
passing config [] = []
passing config (c ∷ calls) =
    let rest = passing config calls in if at_least (level_of c) config.level then c ∷ rest else rest

-- The logger whose level lets everything pass.
unfoldable pub open_config : Config → Config
open_config config = set_level trace_level config

open_passes : (level : LogLevel) (config : Config) → should_log level (open_config config) ≡ true
unfolding open_config set_level should_log level_number
open_passes level config = le→leb 0 (level_number level) (omega arith)

call_passes :
    {S : Type 0} (sink : Sink S) (config : Config) (c : Call) (s : S)
    → should_log (level_of c) config ≡ true
    → call sink config c s ≡ call sink (open_config config) c s
unfolding call at level_of trace debug info warn error fatal log_with_location log_formatted
call_passes sink config (at_level trace_level text) s h =
    rw (h, open_passes trace_level config) refl
call_passes sink config (at_level debug_level text) s h =
    rw (h, open_passes debug_level config) refl
call_passes sink config (at_level info_level text) s h = rw (h, open_passes info_level config) refl
call_passes sink config (at_level warn_level text) s h = rw (h, open_passes warn_level config) refl
call_passes sink config (at_level error_level text) s h =
    rw (h, open_passes error_level config) refl
call_passes sink config (at_level fatal_level text) s h =
    rw (h, open_passes fatal_level config) refl
call_passes sink config (by_log level text) s h = rw (h, open_passes level config) refl
call_passes sink config (at_location level text file line function) s h =
    rw (h, open_passes level config) refl

call_stops :
    {S : Type 0} (sink : Sink S) (config : Config) (c : Call) (s : S)
    → should_log (level_of c) config ≡ false
    → call sink config c s ≡ s
unfolding call at level_of trace debug info warn error fatal log_with_location log_formatted
call_stops sink config (at_level trace_level text) s h = rw h refl
call_stops sink config (at_level debug_level text) s h = rw h refl
call_stops sink config (at_level info_level text) s h = rw h refl
call_stops sink config (at_level warn_level text) s h = rw h refl
call_stops sink config (at_level error_level text) s h = rw h refl
call_stops sink config (at_level fatal_level text) s h = rw h refl
call_stops sink config (by_log level text) s h = rw h refl
call_stops sink config (at_location level text file line function) s h = rw h refl

-- Whatever `log` does with a message, a sequence of calls of a logger does what the calls whose
-- level is at least the logger's do, in their order, on a logger that lets every level pass; the
-- others do nothing.
pub call_all-passing :
    {S : Type 0} (sink : Sink S) (config : Config) (calls : List Call) (s : S)
    → call_all sink config calls s ≡ call_all sink (open_config config) (passing config calls) s
unfolding call_all passing
call_all-passing sink config [] s = refl
call_all-passing sink config (c ∷ calls) s =
    let pinned = should_log-at_least (level_of c) config in
    elim (Bool-cases (at_least (level_of c) config.level)) [
      | inl y ↦
          rw (y, call_passes sink config c s (pinned ∙ y))
            (call_all-passing sink config calls (call sink (open_config config) c s))
      | inr n ↦
          rw (n, call_stops sink config c s (pinned ∙ n)) (call_all-passing sink config calls s)
    ]
