-- ===== src/Tests/Loggers.antt =====
-- Instances of the theorem on loggers, with the list of the messages as what `log` changes.
use http_web_framework.Prelude.{List, [], ◌++◌, ◌∷◌, ◌≡◌}
use http_web_framework.Text.{Bytes, codes}
use http_web_framework.Types.{pos}
use http_web_framework.Logger.{
  Sink, debug_level, default_config, error_level, trace_level, warn_level,
}
use http_web_framework.Logger.Filtered.{
  Call, at_level, at_location, by_log, call_all, call_all-passing, open_config, passing,
}

abbrev list_sink : Sink (List Bytes)
list_sink = record {
  log = λ level text messages. messages ++ text ∷ [];
  log_with_context = λ level text context messages. messages ++ text ∷ [];
}

abbrev some_calls : List Call
some_calls =
    at_level debug_level (codes "a")
    ∷ at_level warn_level (codes "b")
    ∷ by_log trace_level (codes "c")
    ∷ at_location error_level (codes "d") (codes "f") (pos 7) (codes "g")
    ∷ []

call_all-passing_example :
    call_all list_sink default_config some_calls []
    ≡ call_all list_sink (open_config default_config) (passing default_config some_calls) []
call_all-passing_example = call_all-passing list_sink default_config some_calls []
