-- ===== src/Text/Strings.antt =====
-- Byte strings: literals, equality, letter case.
use Prim.Native.Char.{code}
use Prim.Native.String.{String}
use http_web_framework.Prelude.{
  All, Bool, List, [], arith, false, if◌then◌else◌, leb, length, refl, true, ℕ, ◌&&◌, ◌++◌, ◌+◌,
  ◌-◌, ◌<◌, ◌==◌, ◌↔◌, ◌∷◌, ◌≡◌, ◌≢◌,
}

abbrev pub Bytes : Type 0
Bytes = List ℕ

-- The code points of a literal; these are its bytes, since the literals are ASCII.
abbrev pub codes : String → Bytes
codes String.[] = []
codes (String.◌∷◌ c s) = code c ∷ codes s

-- `a == b` on strings.
unfoldable pub same_text : Bytes → Bytes → Bool
same_text [] [] = true
same_text (x ∷ a) (y ∷ b) = (x == y) && same_text a b
same_text _ _ = false

-- The comparison decides equality.
pub same_text_iff : (s t : Bytes) → (same_text s t ≡ true) ↔ (s ≡ t)
unfolding same_text
same_text_iff [] [] = ground arith
same_text_iff [] (d ∷ t) = ground arith
same_text_iff (c ∷ s) [] = ground arith
same_text_iff (c ∷ s) (d ∷ t) = ground (arith, same_text_iff s t)

pub same_text_refl : (a : Bytes) → same_text a a ≡ true
same_text_refl a = (same_text_iff a a).1 refl

pub same_text_sym : (a b : Bytes) → same_text a b ≡ same_text b a
same_text_sym a b = ground (arith, same_text_iff a b, same_text_iff b a)

-- The pieces that a chain `oss << a << b << c`, or `a + b + c`, puts together.
abbrev pub stream : List Bytes → Bytes
stream [] = []
stream (s ∷ []) = s
stream (s ∷ t ∷ ss) = s ++ stream (t ∷ ss)

-- `s.empty()`
abbrev pub empty : Bytes → Bool
empty [] = true
empty (c ∷ s) = false

-- `s.size()`
abbrev pub size : Bytes → ℕ
size = length

-- `std::tolower` and `std::toupper` in the C locale.
unfoldable pub tolower : ℕ → ℕ
tolower c = if leb b'A' c && leb c b'Z' then c + 32 else c

unfoldable pub toupper : ℕ → ℕ
toupper c = if leb b'a' c && leb c b'z' then c - 32 else c

-- No byte of the text is `b`.
abbrev pub Lacks : ℕ → Bytes → Type 0
Lacks b = All (λ c. c ≢ b)

-- Every element is a byte.
abbrev pub IsBytes : Bytes → Type 0
IsBytes = All (λ c. c < 256)
