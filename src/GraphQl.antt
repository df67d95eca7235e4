-- ===== src/GraphQl.antt =====
-- include/graphql/schema.hpp: the values of a query, Value's constructor from another type and its
-- `get`. A `double` is kept as its bits, and a map as its list of entries.
pub mod Values
use http_web_framework.Prelude.{Bool, Option, [], if◌then◌else◌, ltb, none, some, ℕ, ◌%◌, ◌-◌, ◌^◌}
use http_web_framework.Text.{Bytes}
use http_web_framework.Types.{ℤ, negsuc, pos}

-- `variant<string, int64_t, double, bool, vector<Value>, hash_map<string, Value>, monostate>`
mutual
  pub data Value : Type 0 where
    str : Bytes → Value
    int : ℤ → Value
    double : ℕ → Value
    bool : Bool → Value
    list : ValueList → Value
    object : ValueMap → Value
    monostate : Value

  pub data ValueList : Type 0 where
    no_values : ValueList
    value_then : Value → ValueList → ValueList

  pub data ValueMap : Type 0 where
    no_entries : ValueMap
    entry_then : Bytes → Value → ValueMap → ValueMap

pub data ValueType : Type 0 where
  str_type int_type double_type bool_type list_type object_type monostate_type : ValueType

-- The C++ type of an alternative.
abbrev pub Held : ValueType → Type 0
Held str_type = Bytes
Held int_type = ℤ
Held double_type = ℕ
Held bool_type = Bool
Held list_type = ValueList
Held object_type = ValueMap
Held monostate_type = Unit

-- `get<T>()`
unfoldable pub get : (t : ValueType) → Value → Option (Held t)
get str_type (str s) = some s
get int_type (int n) = some n
get double_type (double d) = some d
get bool_type (bool b) = some b
get list_type (list vs) = some vs
get object_type (object es) = some es
get monostate_type monostate = some tt
get _ _ = none

-- `Value()`: the first alternative of the variant.
unfoldable pub default_value : Value
default_value = str []

-- What the constructor is given: an integral type other than bool by its number, and any type that
-- no branch takes, such as `const char*` or Value itself.
pub data Argument : Type 0 where
  string_arg : Bytes → Argument
  bool_arg : Bool → Argument
  integral_arg : ℤ → Argument
  floating_arg : ℕ → Argument
  list_arg : ValueList → Argument
  object_arg : ValueMap → Argument
  other_arg : Argument

-- `static_cast<int64_t>(val)`: the number of 64 bits that is the same modulo 2^64.
unfoldable pub to_int64 : ℤ → ℤ
to_int64 (pos n) = let m = n % 2 ^ 64 in if ltb m (2 ^ 63) then pos m else negsuc (2 ^ 64 - 1 - m)
to_int64 (negsuc n) =
    let m = n % 2 ^ 64 in if ltb m (2 ^ 63) then negsuc m else pos (2 ^ 64 - 1 - m)

-- `Value(T&& val)`
unfoldable pub new_value : Argument → Value
new_value (string_arg s) = str s
new_value (bool_arg b) = bool b
new_value (integral_arg n) = int (to_int64 n)
new_value (floating_arg d) = double d
new_value (list_arg vs) = list vs
new_value (object_arg es) = object es
new_value other_arg = default_value
