-- ===== src/Text/Space.antt =====
-- White space: `std::isspace`, and the loops that trim both ends of a text.
use http_web_framework.Prelude.{
  ℕ, ◌≡◌, Bool, true, ◌&&◌, ◌||◌, [], ◌∷◌, leb, ◌==◌, if◌then◌else◌, All,
}
use http_web_framework.Text.Strings.{Bytes, empty}

-- `std::isspace` in the C locale: tab, line feed, vertical tab, form feed, return and space.
unfoldable pub is_space : ℕ → Bool
is_space c = (leb 9 c && leb c 13) || (c == 32)

-- `while (!s.empty() && std::isspace(s[0])) s.erase(0, 1);`
unfoldable pub trim_front : Bytes → Bytes
unfolding is_space
trim_front [] = []
trim_front (c ∷ s) = if is_space c then trim_front s else c ∷ s

-- `while (!s.empty() && std::isspace(s.back())) s.pop_back();`: what is left of the front is empty
-- exactly if all behind it is white space.
unfoldable pub trim_back : Bytes → Bytes
unfolding is_space
trim_back [] = []
trim_back (c ∷ s) = let rest = trim_back s in if is_space c && empty rest then [] else c ∷ rest

abbrev pub IsSpaces : Bytes → Type 0
IsSpaces = All (λ c. is_space c ≡ true)

-- A text that trimming leaves alone: its first and its last byte are no white space.
abbrev pub IsTrimmed : Bytes → Type 0
IsTrimmed s = (trim_front s ≡ s) × (trim_back s ≡ s)
