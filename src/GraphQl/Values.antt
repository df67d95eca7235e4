-- ===== src/GraphQl/Values.antt =====
-- What a Value of include/graphql/schema.hpp holds after its construction.
use http_web_framework.Prelude.{ap, arith, lt→ltb, none, refl, some, ℕ, ◌%◌, ◌<◌, ◌^◌, ◌≡◌, ◌≢◌}
use http_web_framework.Types.{negsuc, pos}
use http_web_framework.GraphQl.{
  Argument, Held, Value, ValueType, bool, bool_arg, bool_type, double, double_type, floating_arg,
  get, int, int_type, integral_arg, list, list_arg, list_type, monostate, monostate_type, new_value,
  object, object_arg, object_type, other_arg, str, str_type, string_arg, to_int64,
}

-- The type that an argument is stored as.
unfoldable pub type_of : Argument → ValueType
type_of (string_arg s) = str_type
type_of (bool_arg b) = bool_type
type_of (integral_arg n) = int_type
type_of (floating_arg d) = double_type
type_of (list_arg vs) = list_type
type_of (object_arg es) = object_type
type_of other_arg = str_type

-- An argument that a branch of the constructor takes, a number of 64 bits if it is integral.
unfoldable pub IsTaken : Argument → Type 0
IsTaken (integral_arg (pos n)) = n < 2 ^ 63
IsTaken (integral_arg (negsuc n)) = n < 2 ^ 63
IsTaken other_arg = ⊥
IsTaken a = Unit

-- The value of such an argument, as the type that it is stored as.
unfoldable pub held : (a : Argument) → IsTaken a → Held (type_of a)
unfolding type_of IsTaken
held (string_arg s) h = s
held (bool_arg b) h = b
held (integral_arg n) h = n
held (floating_arg d) h = d
held (list_arg vs) h = vs
held (object_arg es) h = es
held other_arg h = absurd h

to_int64_small : (n : ℕ) → n < 2 ^ 63 → to_int64 (pos n) ≡ pos n
unfolding to_int64
to_int64_small n h =
    let e : n % 2 ^ 64 ≡ n = omega arith in let l = lt→ltb n (2 ^ 63) h in rw (e, l) refl

to_int64_small_neg : (n : ℕ) → n < 2 ^ 63 → to_int64 (negsuc n) ≡ negsuc n
unfolding to_int64
to_int64_small_neg n h =
    let e : n % 2 ^ 64 ≡ n = omega arith in let l = lt→ltb n (2 ^ 63) h in rw (e, l) refl

-- The type of the alternative that a value holds.
tag : Value → ValueType
tag (str s) = str_type
tag (int n) = int_type
tag (double d) = double_type
tag (bool b) = bool_type
tag (list vs) = list_type
tag (object es) = object_type
tag monostate = monostate_type

get_other : (v : Value) (t : ValueType) → t ≢ tag v → get t v ≡ none
unfolding get tag
get_other (str s) str_type h = absurd (h refl)
get_other (str s) _ h = refl
get_other (int n) int_type h = absurd (h refl)
get_other (int n) _ h = refl
get_other (double d) double_type h = absurd (h refl)
get_other (double d) _ h = refl
get_other (bool b) bool_type h = absurd (h refl)
get_other (bool b) _ h = refl
get_other (list vs) list_type h = absurd (h refl)
get_other (list vs) _ h = refl
get_other (object es) object_type h = absurd (h refl)
get_other (object es) _ h = refl
get_other monostate monostate_type h = absurd (h refl)
get_other monostate _ h = refl

-- A string, a Boolean, a number that 64 bits with a sign can hold, a double, a list and a map are
-- read back as they were given, and asking for any other type gives nothing.
pub get-new_value :
    (a : Argument) (h : IsTaken a)
    → (get (type_of a) (new_value a) ≡ some (held a h))
      × ((t : ValueType) → t ≢ type_of a → get t (new_value a) ≡ none)
unfolding type_of IsTaken held new_value get tag
get-new_value (string_arg s) h = (refl, get_other (str s))
get-new_value (bool_arg b) h = (refl, get_other (bool b))
get-new_value (integral_arg (pos n)) h =
    (ap some (to_int64_small n h), get_other (int (to_int64 (pos n))))
get-new_value (integral_arg (negsuc n)) h =
    (ap some (to_int64_small_neg n h), get_other (int (to_int64 (negsuc n))))
get-new_value (floating_arg d) h = (refl, get_other (double d))
get-new_value (list_arg vs) h = (refl, get_other (list vs))
get-new_value (object_arg es) h = (refl, get_other (object es))
get-new_value other_arg h = absurd h
