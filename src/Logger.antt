-- ===== src/Logger.antt =====
-- include/utils/logger.hpp: the level and the switches of a logger, and its calls with a format and
-- arguments. What format_string makes of these is given as a text, and `log(level, message)` and its
-- overload with a context, which have no body in the repository, are parameters.
pub mod Filtered
use http_web_framework.Prelude.{
  Bool, Option, [], false, if◌then◌else◌, leb, none, true, ℕ, ◌*◌, ◌∷◌,
}
use http_web_framework.Text.{Bytes, codes}
use http_web_framework.Types.{ℤ, to_string_ℤ}
use http_web_framework.Fields.{HashMap}

-- The enumeration of include/core/types.hpp, by its numbers.
pub data LogLevel : Type 0 where
  trace_level debug_level info_level warn_level error_level fatal_level : LogLevel

unfoldable pub level_number : LogLevel → ℕ
level_number trace_level = 0
level_number debug_level = 1
level_number info_level = 2
level_number warn_level = 3
level_number error_level = 4
level_number fatal_level = 5

pub record Config : Type 0 where
  pub level : LogLevel
  pub console_output : Bool
  pub file_output : Bool
  pub file_path : Option Bytes
  pub auto_flush : Bool
  pub thread_safe : Bool
  pub include_timestamp : Bool
  pub include_thread_id : Bool
  pub include_location : Bool
  pub timestamp_format : Bytes
  pub max_file_size : ℕ
  pub max_backup_files : ℕ
  pub colored_output : Bool

unfoldable pub default_config : Config
default_config = record {
  level = info_level;
  console_output = true;
  file_output = false;
  file_path = none;
  auto_flush = true;
  thread_safe = true;
  include_timestamp = true;
  include_thread_id = true;
  include_location = false;
  timestamp_format = codes "%Y-%m-%d %H:%M:%S";
  max_file_size = 10 * 1024 * 1024;
  max_backup_files = 5;
  colored_output = true;
}

unfoldable pub set_level : LogLevel → Config → Config
set_level level config = record config { level = level }

unfoldable pub enable_console_output : Bool → Config → Config
enable_console_output enable config = record config { console_output = enable }

unfoldable pub enable_file_output : Bool → Config → Config
enable_file_output enable config = record config { file_output = enable }

unfoldable pub enable_auto_flush : Bool → Config → Config
enable_auto_flush enable config = record config { auto_flush = enable }

unfoldable pub enable_thread_safety : Bool → Config → Config
enable_thread_safety enable config = record config { thread_safe = enable }

unfoldable pub enable_colored_output : Bool → Config → Config
enable_colored_output enable config = record config { colored_output = enable }

unfoldable pub set_max_file_size : ℕ → Config → Config
set_max_file_size max_size config = record config { max_file_size = max_size }

unfoldable pub set_max_backup_files : ℕ → Config → Config
set_max_backup_files max_files config = record config { max_backup_files = max_files }

-- `level >= config_.level`
unfoldable pub should_log : LogLevel → Config → Bool
should_log level config = leb (level_number config.level) (level_number level)

-- `log(level, message)` and `log(level, message, context)`, over what they change.
pub record Sink (S : Type 0) : Type 0 where
  pub log : LogLevel → Bytes → S → S
  pub log_with_context : LogLevel → Bytes → HashMap Bytes → S → S

module _ {S : Type 0} (sink : Sink S) (config : Config) where
  -- `log(level, format, args...)`
  unfoldable pub log_formatted : LogLevel → Bytes → S → S
  log_formatted level text s = if should_log level config then sink.log level text s else s

  unfoldable pub trace : Bytes → S → S
  trace text s = if should_log trace_level config then sink.log trace_level text s else s

  unfoldable pub debug : Bytes → S → S
  debug text s = if should_log debug_level config then sink.log debug_level text s else s

  unfoldable pub info : Bytes → S → S
  info text s = if should_log info_level config then sink.log info_level text s else s

  unfoldable pub warn : Bytes → S → S
  warn text s = if should_log warn_level config then sink.log warn_level text s else s

  unfoldable pub error : Bytes → S → S
  error text s = if should_log error_level config then sink.log error_level text s else s

  unfoldable pub fatal : Bytes → S → S
  fatal text s = if should_log fatal_level config then sink.log fatal_level text s else s

  unfoldable pub log_with_location : LogLevel → Bytes → Bytes → ℤ → Bytes → S → S
  log_with_location level text file line function s =
      let location_context : HashMap Bytes =
        (codes "file", file)
        ∷ (codes "line", to_string_ℤ line)
        ∷ (codes "function", function)
        ∷ [] in
      if should_log level config then sink.log_with_context level text location_context s else s
