-- ===== src/Wire/FirstLine.antt =====
-- What the round trips of requests and of responses share: words and versions of the first line, and a
-- message without a body.
use http_web_framework.Prelude.{
  All, List, [], arith, false, ge→ltb, length, none, refl, ℕ, ◌++◌, ◌+◌, ◌∷◌, ◌≡◌,
}
use http_web_framework.Text.{
  Bytes, Lacks, break_word_space, codes, empty, get_lines, is_space, pieces, read_lines, read_word,
  strip_return, trim_front,
}
use http_web_framework.Types.{HttpVersion, http_1_0, http_1_1, http_2_0, http_3_0}
use http_web_framework.Wire.{print_version, read_body}

-- An address that one word can carry.
pub record IsWord (uri : Bytes) : Type 0 where
  pub some_byte : empty uri ≡ false
  pub no_space : All (λ c. is_space c ≡ false) uri

-- A version that from_string knows.
pub data IsKnown : HttpVersion → Type 0 where
  known_1_0 : IsKnown http_1_0
  known_1_1 : IsKnown http_1_1

pub read_word_uri :
    (uri rest : Bytes) → IsWord uri → read_word (b' ' ∷ (uri ++ b' ' ∷ rest)) ≡ (uri, b' ' ∷ rest)
unfolding read_word trim_front
read_word_uri [] rest ok = cc
read_word_uri (c ∷ w) rest ok = rw (ok.no_space.0) (break_word_space (c ∷ w) rest ok.no_space)

pub word_line : (w : Bytes) → All (λ c. is_space c ≡ false) w → Lacks b'\n' w
unfolding is_space
word_line [] h = tt
word_line (c ∷ w) h = (ground (arith, h.0), word_line w h.1)

pub version_line : (v : HttpVersion) → IsKnown v → Lacks b'\n' (codes " HTTP/" ++ print_version v)
unfolding print_version
version_line http_1_0 known_1_0 = ground arith
version_line http_1_1 known_1_1 = ground arith
version_line http_2_0 unknown = elim unknown [ ]
version_line http_3_0 unknown = elim unknown [ ]

pub bodiless :
    (first : Bytes) (lines : List Bytes) (n : ℕ)
    → length lines ≡ n + 1
    → read_body (1 + n) (first ∷ lines) ≡ none
unfolding read_body
bodiless first lines n h = rw (ge→ltb (1 + n + 1) (length (first ∷ lines)) (omega (arith, h))) refl

pub last_line : length (read_lines (b'\r' ∷ b'\n' ∷ [])) ≡ 1
unfolding read_lines get_lines pieces strip_return
last_line = refl
