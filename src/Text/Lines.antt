-- ===== src/Text/Lines.antt =====
-- Lines and words of a text: `std::getline` and `operator>>` on a string stream.
use http_web_framework.Prelude.{
  All, All-append, List, [], ap, append_assoc, arith, false, if◌then◌else◌, map, refl, ◌++◌, ◌==◌,
  ◌∷◌, ◌≡◌,
}
use http_web_framework.Text.Strings.{Bytes, Lacks}
use http_web_framework.Text.Pieces.{pieces, pieces_piece}
use http_web_framework.Text.Space.{is_space, trim_front}

-- `while (std::getline(stream, line))`: the pieces that end at a line feed.
unfoldable pub get_lines : Bytes → List Bytes
get_lines s = pieces b'\n' s

-- `if (!line.empty() && line.back() == '\r') line.pop_back();`
unfoldable pub strip_return : Bytes → Bytes
strip_return [] = []
strip_return (c ∷ []) = if c == b'\r' then [] else c ∷ []
strip_return (c ∷ d ∷ s) = c ∷ strip_return (d ∷ s)

-- The lines of a message, without their ends.
unfoldable pub read_lines : Bytes → List Bytes
read_lines data' = map strip_return (get_lines data')

-- The bytes up to the first white space, and the rest.
unfoldable pub break_word : Bytes → Bytes × Bytes
break_word [] = ([], [])
break_word (c ∷ s) = let (w, r) = break_word s in if is_space c then ([], c ∷ s) else (c ∷ w, r)

-- `stream >> word`
unfoldable pub read_word : Bytes → Bytes × Bytes
read_word s = break_word (trim_front s)

pub strip_return_line : (l : Bytes) → strip_return (l ++ b'\r' ∷ []) ≡ l
unfolding strip_return
strip_return_line [] = refl
strip_return_line (c ∷ []) = refl
strip_return_line (c ∷ d ∷ l) = ap (λ t. c ∷ t) (strip_return_line (d ∷ l))

-- A line that ends in a return and a line feed is read whole, whatever follows.
pub read_lines_line :
    (l s : Bytes) → Lacks b'\n' l → read_lines (l ++ b'\r' ∷ b'\n' ∷ s) ≡ l ∷ read_lines s
unfolding read_lines get_lines
read_lines_line l s h = rw (← append_assoc l (b'\r' ∷ []) (b'\n' ∷ s)) (
    rw (pieces_piece b'\n' (l ++ b'\r' ∷ []) s (All-append _ l _ h (omega arith, tt)))
      (rw strip_return_line))

-- A word in front of a space, with no white space inside.
pub break_word_space :
    (w s : Bytes) → All (λ c. is_space c ≡ false) w → break_word (w ++ b' ' ∷ s) ≡ (w, b' ' ∷ s)
unfolding break_word is_space
break_word_space [] s h = refl
break_word_space (c ∷ w) s h = ground (arith, break_word_space w s h.1)

pub break_word_end : (w : Bytes) → All (λ c. is_space c ≡ false) w → break_word w ≡ (w, [])
unfolding break_word
break_word_end [] h = refl
break_word_end (c ∷ w) h = ground (arith, break_word_end w h.1)
