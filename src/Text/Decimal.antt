-- ===== src/Text/Decimal.antt =====
-- Reading back what `std::to_string` writes.
use native.Mathlib.Nat.{pow-suc}
use http_web_framework.Prelude.{
  All, Bool-cases, [], ap, arith, false, inl, inr, is_some, length, ltb, ltb→lt, lt→ltb, refl, some,
  suc, true, zero, ℕ, ◌%◌, ◌*◌, ◌+◌, ◌/◌, ◌<◌, ◌^◌, ◌∙◌, ◌∷◌, ◌≡◌, ◌≤◌,
}
use http_web_framework.Text.Space.{trim_front}
use http_web_framework.Text.Strings.{Bytes}
use http_web_framework.Text.Number.{
  digit_in, digits, magnitude, scan_digits, skip_prefix, stoull, strtol, take_sign, to_string,
}

abbrev pub IsDigit : ℕ → Type 0
IsDigit c = (b'0' ≤ c) × (c ≤ b'9')

digit_in_digit : (d : ℕ) → d < 10 → digit_in 10 (b'0' + d) ≡ some d
unfolding digit_in
digit_in_digit d h = ground arith

scan_digit :
    (n d : ℕ) (s : Bytes)
    → d < 10
    → scan_digits 10 n ((b'0' + d) ∷ s) ≡ scan_digits 10 (n * 10 + d) s
unfolding scan_digits
scan_digit n d s h = rw (digit_in_digit d h, scan_digits)

scan-digits :
    (f n : ℕ) (out : Bytes) → n < 10 ^ f → scan_digits 10 0 (digits f n out) ≡ scan_digits 10 n out
unfolding digits
scan-digits zero n out h = let e : n ≡ 0 = omega arith in rw e
scan-digits (suc f) n out h = elim (Bool-cases (ltb n 10)) [
  | inl small ↦
      rw small
        (scan_digit 0 n out (ltb→lt _ _ small) ∙ ap (λ k. scan_digits 10 k out) (omega arith))
  | inr large ↦ rw large (
      scan-digits f (n / 10) ((b'0' + n % 10) ∷ out) (omega (arith, pow-suc 10 f))
      ∙ scan_digit (n / 10) (n % 10) out (omega arith)
      ∙ ap (λ k. scan_digits 10 k out) (omega arith))
]

digits-IsDigit : (f n : ℕ) (out : Bytes) → All IsDigit out → All IsDigit (digits f n out)
unfolding digits
digits-IsDigit zero n out h = h
digits-IsDigit (suc f) n out h = elim (Bool-cases (ltb n 10)) [
  | inl small ↦ let lt = ltb→lt _ _ small in rw small ((omega arith, omega arith), h)
  | inr large ↦
      rw large (digits-IsDigit f (n / 10) ((b'0' + n % 10) ∷ out) ((omega arith, omega arith), h))
]

length-digits : (f n : ℕ) (out : Bytes) → length out ≤ length (digits f n out)
unfolding digits
length-digits zero n out = omega arith
length-digits (suc f) n out = ground (arith, length-digits f (n / 10) ((b'0' + n % 10) ∷ out))

pub to_string-IsDigit : (n : ℕ) → All IsDigit (to_string n)
unfolding to_string
to_string-IsDigit n = digits-IsDigit 20 n [] tt

digits_longer : (f n : ℕ) (out : Bytes) → length out < length (digits (suc f) n out)
unfolding digits
digits_longer f n out = ground (arith, length-digits f (n / 10) ((b'0' + n % 10) ∷ out))

cons_of_length : (s : Bytes) → 0 < length s → (c : ℕ) × (t : Bytes) × (s ≡ c ∷ t)
cons_of_length [] h = absurd (omega arith)
cons_of_length (c ∷ t) h = (c, t, refl)

-- The text of a number is not empty.
pub to_string-cons : (n : ℕ) → (c : ℕ) × (s : Bytes) × (to_string n ≡ c ∷ s)
unfolding to_string
to_string-cons n = cons_of_length (digits 20 n []) (omega (arith, digits_longer 19 n []))

digit_in-IsDigit : (c : ℕ) → IsDigit c → is_some (digit_in 10 c) ≡ true
unfolding digit_in
digit_in-IsDigit c h = ground arith

trim_front-IsDigit : (c : ℕ) (s : Bytes) → IsDigit c → trim_front (c ∷ s) ≡ c ∷ s
unfolding trim_front
trim_front-IsDigit c s h = ground arith

take_sign-IsDigit : (c : ℕ) (s : Bytes) → IsDigit c → take_sign (c ∷ s) ≡ (false, c ∷ s)
unfolding take_sign
take_sign-IsDigit c s h = ground arith

skip_prefix_ten : (s : Bytes) → skip_prefix 10 s ≡ s
unfolding skip_prefix
skip_prefix_ten (z ∷ x ∷ c ∷ s) = refl
skip_prefix_ten _ = refl

-- A text that begins with a digit is read from there on.
pub strtol_of_IsDigit :
    (c : ℕ) (s : Bytes) → IsDigit c → strtol 10 (c ∷ s) ≡ some (false, scan_digits 10 0 (c ∷ s))
unfolding strtol magnitude
strtol_of_IsDigit c s h = ground (
  arith,
  trim_front-IsDigit c s h,
  take_sign-IsDigit c s h,
  skip_prefix_ten (c ∷ s),
  digit_in-IsDigit c h,
)

scan-to_string : (n : ℕ) → n < 2 ^ 64 → scan_digits 10 0 (to_string n) ≡ n
unfolding to_string scan_digits
scan-to_string n h = scan-digits 20 n [] (omega arith)

pub strtol-to_string : (n : ℕ) → n < 2 ^ 64 → strtol 10 (to_string n) ≡ some (false, n)
strtol-to_string n h =
    let (c, s, e) = to_string-cons n in
    let digit : IsDigit c = (rw e at (to_string-IsDigit n)).0 in
    let value : scan_digits 10 0 (to_string n) ≡ n = scan-to_string n h in
    rw e (rw (strtol_of_IsDigit c s digit) (ap (λ k. some (false, k)) (rw e at value)))

pub stoull-to_string : (n : ℕ) → n < 2 ^ 64 → stoull (to_string n) ≡ some n
unfolding stoull
stoull-to_string n h = rw (strtol-to_string n h, stoull) (rw (lt→ltb n (2 ^ 64) h))
