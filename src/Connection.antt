-- ===== src/Connection.antt =====
-- include/core/connection.hpp: what a connection keeps for the application, set_user_data and
-- get_user_data.
use http_web_framework.Prelude.{Option, if◌then◌else◌, none, some}
use http_web_framework.Types.{Attribute, AttributeType, holds_alternative}

-- `variant<std::monostate, string, int64_t, double, bool>`: `none` is the monostate.
abbrev pub UserData : Type 0
UserData = Option Attribute

-- `holds_alternative<T>(user_data_)` and `get<T>(user_data_)`
unfoldable pub as_type : AttributeType → UserData → Option Attribute
as_type t none = none
as_type t (some a) = if holds_alternative t a then some a else none

pub record Connection : Type 0 where
  pub user_data : UserData

unfoldable pub set_user_data : Attribute → Connection → Connection
set_user_data value connection = record connection { user_data = some value }

unfoldable pub get_user_data : AttributeType → Connection → Option Attribute
get_user_data t connection = as_type t connection.user_data
