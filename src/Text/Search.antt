-- ===== src/Text/Search.antt =====
-- `find`, `substr`, `starts_with` and the search for a substring.
use mathlib.Core.Option
use http_web_framework.Prelude.{
  ℕ, suc, ◌+◌, ◌≡◌, refl, ap, ◌⊎◌, inl, inr, Bool, true, false, ◌&&◌, ◌||◌, Option, none, some, [],
  ◌∷◌, ◌++◌, arith, ◌==◌, if◌then◌else◌, Bool-cases, length, take, drop,
}
use http_web_framework.Text.Strings.{Bytes, Lacks}

-- `s.find(c)`: the first position of the byte; `npos` is `none`.
unfoldable pub find : ℕ → Bytes → Option ℕ
find c [] = none
find c (x ∷ s) = if x == c then some 0 else Option.map suc (find c s)

-- `s.find(c, start)`
unfoldable pub find_from : ℕ → ℕ → Bytes → Option ℕ
find_from c start s = Option.map (λ i. start + i) (find c (drop start s))

-- `s.substr(pos)` and `s.substr(pos, n)`, at positions within the text.
abbrev pub substr_from : Bytes → ℕ → Bytes
substr_from s pos = drop pos s

abbrev pub substr : Bytes → ℕ → ℕ → Bytes
substr s pos n = take n (drop pos s)

-- `s.starts_with(prefix)`
unfoldable pub starts_with : Bytes → Bytes → Bool
starts_with s [] = true
starts_with [] (p ∷ ps) = false
starts_with (x ∷ s) (p ∷ ps) = (x == p) && starts_with s ps

-- `s.find(needle) != npos`
unfoldable pub contains : Bytes → Bytes → Bool
contains [] needle = starts_with [] needle
contains (x ∷ s) needle = starts_with (x ∷ s) needle || contains s needle

pub find_of_Lacks : (c : ℕ) (s : Bytes) → Lacks c s → find c s ≡ none
unfolding find
find_of_Lacks c [] h = refl
find_of_Lacks c (x ∷ s) h = ground (arith, find_of_Lacks c s h.1)

pub find-append : (c : ℕ) (p r : Bytes) → Lacks c p → find c (p ++ c ∷ r) ≡ some (length p)
unfolding find
find-append c [] r h = ground arith
find-append c (x ∷ p) r h = ground (arith, find-append c p r h.1)

-- What a search finds: nothing, and then the byte is not there; or the end of the part before it.
pub record IsFound (c : ℕ) (s : Bytes) : Type 0 where
  pub before : Bytes
  pub after : Bytes
  pub text : s ≡ before ++ c ∷ after
  pub lacks : Lacks c before
  pub found : find c s ≡ some (length before)

IsFound-cons : (c x : ℕ) (s : Bytes) → x ≡ c → IsFound c (x ∷ s)
unfolding find
IsFound-cons c x s e = record {
  before = [];
  after = s;
  text = ap (λ y. y ∷ s) e;
  lacks = tt;
  found = ground arith;
}

pub find-cases : (c : ℕ) (s : Bytes) → (Lacks c s × (find c s ≡ none)) ⊎ IsFound c s
unfolding find
find-cases c [] = inl (tt, refl)
find-cases c (x ∷ s) = elim (Bool-cases (x == c)) [
  | inl same ↦ inr (IsFound-cons c x s (ground arith))
  | inr other ↦ elim (find-cases c s) [
    | inl (l, e) ↦ inl ((ground arith, l), ground arith)
    | inr f ↦ inr (record {
      before = x ∷ f.before;
      after = f.after;
      text = ap (λ t. x ∷ t) f.text;
      lacks = (ground arith, f.lacks);
      found = ground (arith, f.found);
    })
  ]
]

-- `s.rfind(c)`: the last position of the byte.
unfoldable pub rfind : ℕ → Bytes → Option ℕ
rfind c [] = none
rfind c (x ∷ s) = elim (rfind c s) [
  | some i ↦ some (suc i)
  | none ↦ if x == c then some 0 else none
]
