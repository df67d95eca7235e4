-- ===== src/Request/Encoding.antt =====
-- url_decode of src/http/request.cpp against percent encoding (RFC 3986, section 2.1).
use http_web_framework.Prelude.{
  Bool, Bool-cases, [], ap, arith, false, if◌then◌else◌, inl, inr, leb, ltb, none, refl, some, true,
  ℕ, ◌%◌, ◌&&◌, ◌*◌, ◌+◌, ◌-◌, ◌/◌, ◌<◌, ◌==◌, ◌||◌, ◌∙◌, ◌∷◌, ◌≡◌,
}
use http_web_framework.Text.{
  Bytes, IsBytes, digit_in, digit_value, is_space, magnitude, scan_digits, skip_prefix, stoi_mod,
  strtol, take_sign, trim_front,
}
use http_web_framework.Request.Query.{escape, plain, url_decode}

-- The digits of percent encoding.
pub hex_digit : ℕ → ℕ
hex_digit d = if ltb d 10 then b'0' + d else b'A' + (d - 10)

-- Letters, digits and `-`, `.`, `_`, `~` stand for themselves.
pub is_unreserved : ℕ → Bool
is_unreserved c =
    (leb b'a' c && leb c b'z')
    || (leb b'A' c && leb c b'Z')
    || (leb b'0' c && leb c b'9')
    || (c == b'-')
    || (c == b'.')
    || (c == b'_')
    || (c == b'~')

pub url_encode : Bytes → Bytes
url_encode [] = []
url_encode (c ∷ s) =
    let rest = url_encode s in
    if is_unreserved c then c ∷ rest else b'%' ∷ hex_digit (c / 16) ∷ hex_digit (c % 16) ∷ rest

hex_digit_in : (d : ℕ) → d < 16 → digit_in 16 (hex_digit d) ≡ some d
unfolding hex_digit digit_in digit_value
hex_digit_in d h = ground arith

hex_digit_start :
    (d : ℕ)
    → d < 16
    → (is_space (hex_digit d) ≡ false)
      × ((hex_digit d == b'-') ≡ false)
      × ((hex_digit d == b'+') ≡ false)
unfolding hex_digit is_space
hex_digit_start d h = ground arith

scan_hex :
    (x y : ℕ) → x < 16 → y < 16 → scan_digits 16 0 (hex_digit x ∷ hex_digit y ∷ []) ≡ x * 16 + y
unfolding scan_digits
scan_hex x y h g = rw (scan_digits, hex_digit_in x h, hex_digit_in y g) (ground arith)

module _ (x y : ℕ) (h : x < 16) (g : y < 16) where
  abbrev two : Bytes
  two = hex_digit x ∷ hex_digit y ∷ []

  trim_hex : trim_front two ≡ two
  unfolding trim_front
  trim_hex = rw (hex_digit_start x h).0

  sign_hex : take_sign two ≡ (false, two)
  unfolding take_sign
  sign_hex = let (_, minus, plus) = hex_digit_start x h in rw (minus, plus)

  magnitude_hex : magnitude 16 (skip_prefix 16 two) ≡ some (x * 16 + y)
  unfolding magnitude skip_prefix
  magnitude_hex = rw (hex_digit_in x h, scan_hex x y h g)

  strtol_hex : strtol 16 two ≡ some (false, x * 16 + y)
  unfolding strtol
  strtol_hex = rw (strtol, trim_hex, sign_hex, magnitude_hex) (rw (trim_hex, sign_hex))

stoi_hex :
    (x y : ℕ) → x < 16 → y < 16 → stoi_mod 8 16 (hex_digit x ∷ hex_digit y ∷ []) ≡ some (x * 16 + y)
unfolding stoi_mod
stoi_hex x y h g = rw (stoi_mod, strtol_hex x y h g) (ground arith)

escape_hex : (c : ℕ) → c < 256 → escape b'%' (hex_digit (c / 16)) (hex_digit (c % 16)) ≡ some c
unfolding escape
escape_hex c h =
    let e : c / 16 * 16 + c % 16 ≡ c = omega arith in
    stoi_hex (c / 16) (c % 16) (omega arith) (omega arith) ∙ ap some e

escape_other : (c a b : ℕ) → (c == b'%') ≡ false → escape c a b ≡ none
unfolding escape
escape_other c a b h = rw h

url_decode-plain :
    (c : ℕ) (s : Bytes) → (c == b'%') ≡ false → url_decode (c ∷ s) ≡ plain c ∷ url_decode s
unfolding url_decode escape
url_decode-plain c [] h = refl
url_decode-plain c (a ∷ []) h = refl
url_decode-plain c (a ∷ b ∷ s) h = rw (url_decode, escape_other c a b h)

plain_unreserved : (c : ℕ) → is_unreserved c ≡ true → ((c == b'%') ≡ false) × (plain c ≡ c)
unfolding is_unreserved plain
plain_unreserved c h = ground arith

-- url_decode gives back every text of bytes that was percent-encoded.
pub url_decode-url_encode : (s : Bytes) → IsBytes s → url_decode (url_encode s) ≡ s
unfolding url_encode url_decode
url_decode-url_encode [] h = refl
url_decode-url_encode (c ∷ s) (byte, h) = elim (Bool-cases (is_unreserved c)) [
  | inl free ↦
      let (other, same) = plain_unreserved c free in
      rw free (url_decode-plain c (url_encode s) other ∙ rw (same, url_decode-url_encode s h))
  | inr bound ↦ rw (bound, url_decode, escape_hex c byte, url_decode-url_encode s h)
]
