-- ===== src/Text/Number.antt =====
-- Numbers as text: `std::to_string`, and the `strtol` family behind `std::stoi` and `std::stoull`.
use http_web_framework.Prelude.{
  Bool, Option, [], false, if◌then◌else◌, is_some, leb, ltb, none, some, suc, true, zero, ℕ, ◌%◌,
  ◌&&◌, ◌*◌, ◌+◌, ◌-◌, ◌/◌, ◌==◌, ◌^◌, ◌||◌, ◌∷◌,
}
use http_web_framework.Text.Strings.{Bytes}
use http_web_framework.Text.Space.{trim_front}

-- The decimal digits of `n` before `out`, least significant first, in as many rounds as there is
-- fuel for.
unfoldable pub digits : ℕ → ℕ → Bytes → Bytes
digits zero n out = out
digits (suc f) n out =
    let rest = digits f (n / 10) ((b'0' + n % 10) ∷ out) in
    if ltb n 10 then (b'0' + n) ∷ out else rest

-- `std::to_string(n)` of a 64-bit number, which has twenty digits at most.
unfoldable pub to_string : ℕ → Bytes
to_string n = digits 20 n []

-- The value of a digit in the bases up to 36.
unfoldable pub digit_value : ℕ → Option ℕ
digit_value c =
    if leb b'0' c && leb c b'9'
    then some (c - b'0')
    else if leb b'a' c && leb c b'z'
    then some (c - b'a' + 10)
    else if leb b'A' c && leb c b'Z'
    then some (c - b'A' + 10)
    else none

-- The digit, if it is one of the base.
unfoldable pub digit_in : ℕ → ℕ → Option ℕ
unfolding digit_value
digit_in base c = elim (digit_value c) [
  | none ↦ none
  | some d ↦ if ltb d base then some d else none
]

-- The number that the leading digits spell behind `n`.
unfoldable pub scan_digits : ℕ → ℕ → Bytes → ℕ
scan_digits base n [] = n
scan_digits base n (c ∷ s) = elim (digit_in base c) [
  | none ↦ n
  | some d ↦ scan_digits base (n * base + d) s
]

-- Whether there is a minus sign, and what stands behind the sign.
unfoldable pub take_sign : Bytes → Bool × Bytes
take_sign [] = (false, [])
take_sign (c ∷ s) =
    if c == b'-' then (true, s) else if c == b'+' then (false, s) else (false, c ∷ s)

-- In base 16 a leading `0x` is passed over if a digit follows.
unfoldable pub skip_prefix : ℕ → Bytes → Bytes
skip_prefix base (z ∷ x ∷ c ∷ s) =
    if (base == 16) && (z == b'0') && ((x == b'x') || (x == b'X')) && is_some (digit_in base c)
    then c ∷ s
    else z ∷ x ∷ c ∷ s
skip_prefix base s = s

-- The digits behind the sign; no digit is `std::invalid_argument`.
unfoldable pub magnitude : ℕ → Bytes → Option ℕ
magnitude base [] = none
magnitude base (c ∷ s) =
    if is_some (digit_in base c) then some (scan_digits base 0 (c ∷ s)) else none

-- `strtol` and `strtoull`: leading white space, a sign, digits; the rest of the text is ignored.
-- The result is the sign and the magnitude, before any test of the range.
unfoldable pub strtol : ℕ → Bytes → Option (Bool × ℕ)
strtol base s =
    let (negative, t) = take_sign (trim_front s) in
    elim (magnitude base (skip_prefix base t)) [ none ↦ none | some n ↦ some (negative, n) ]

-- `std::stoull(s)`: out of range is an exception; a negated number wraps around.
unfoldable pub stoull : Bytes → Option ℕ
stoull s = elim (strtol 10 s) [
  | none ↦ none
  | some (negative, n) ↦
      if ltb n (2 ^ 64) then some (if negative then (2 ^ 64 - n) % 2 ^ 64 else n) else none
]

-- `std::stoi(s, nullptr, base)` read modulo `2 ^ w`, as the casts of the callers do; out of the
-- range of a 32-bit `int` is an exception.
unfoldable pub stoi_mod : ℕ → ℕ → Bytes → Option ℕ
stoi_mod w base s = elim (strtol base s) [
  | none ↦ none
  | some (negative, n) ↦
      if negative
      then (if leb n (2 ^ 31) then some ((2 ^ 32 - n) % 2 ^ w) else none)
      else if ltb n (2 ^ 31)
      then some (n % 2 ^ w)
      else none
]
