-- ===== src/Text/Pieces.antt =====
-- Cutting a text at a separator: the loop over positions by which query strings and cookie headers
-- are read, and the plain recursion that it amounts to.
use mathlib.Core.List.{foldl}
use http_web_framework.Prelude.{
  List, [], ap, arith, drop, drop-append-cons, drop-drop, drop_past, if◌then◌else◌, inl, inr,
  length, length-drop, ltb, lt→ltb, none, refl, some, suc, sym, take, take-append, take_all, zero,
  ℕ, ◌++◌, ◌+◌, ◌-◌, ◌<◌, ◌==◌, ◌∙◌, ◌∷◌, ◌≡◌, ◌≤◌,
}
use native.Mathlib.Decide.{dec_lt}
use http_web_framework.Text.Strings.{Bytes, Lacks, size}
use http_web_framework.Text.Search.{IsFound, find-cases, find_from, find_of_Lacks, substr}

-- One more byte in front of the first piece.
abbrev onto_first : ℕ → List Bytes → List Bytes
onto_first c [] = (c ∷ []) ∷ []
onto_first c (l ∷ ls) = (c ∷ l) ∷ ls

-- The pieces of a text, each ended by the separator or by the end of the text. There is no piece
-- behind the last separator.
unfoldable pub pieces : ℕ → Bytes → List Bytes
pieces sep [] = []
pieces sep (c ∷ s) = let rest = pieces sep s in if c == sep then [] ∷ rest else onto_first c rest

pub pieces_piece :
    (sep : ℕ) (l s : Bytes) → Lacks sep l → pieces sep (l ++ sep ∷ s) ≡ l ∷ pieces sep s
unfolding pieces
pieces_piece sep [] s h = ground arith
pieces_piece sep (c ∷ l) s h = ground (arith, pieces_piece sep l s h.1)

pub pieces_last :
    (sep : ℕ) (c : ℕ) (l : Bytes) → Lacks sep (c ∷ l) → pieces sep (c ∷ l) ≡ (c ∷ l) ∷ []
unfolding pieces
pieces_last sep c [] h = ground arith
pieces_last sep c (d ∷ l) h = ground (arith, pieces_last sep d l h.1)

-- `auto pos = s.find(sep, start); if (pos == npos) pos = s.size();`
unfoldable pub piece_end : ℕ → ℕ → Bytes → ℕ
piece_end sep start s = elim (find_from sep start s) [ none ↦ size s | some p ↦ p ]

module _ {ℓ} {S : Type ℓ} (sep : ℕ) (step : S → Bytes → S) where
  -- `while (start < s.size()) { …; state = step(state, s.substr(start, pos - start)); start = pos + 1; }`
  unfoldable pub scan_pieces : ℕ → ℕ → Bytes → S → S
  scan_pieces zero start s acc = acc
  scan_pieces (suc f) start s acc =
      let stop = piece_end sep start s in
      let rest = scan_pieces f (stop + 1) s (step acc (substr s start (stop - start))) in
      if ltb start (size s) then rest else acc

drop-ne-nil {ℓ} :
    {A : Type ℓ} (n : ℕ) (s : List A) → n < length s → (x : A) × (t : List A) × (drop n s ≡ x ∷ t)
drop-ne-nil n [] h = absurd (omega arith)
drop-ne-nil zero (x ∷ s) h = (x, s, refl)
drop-ne-nil (suc n) (x ∷ s) h = drop-ne-nil n s (omega arith)

-- The end of the first piece, where the search finds nothing and where it finds a separator.
piece_end_of_Lacks :
    (sep start : ℕ) (s : Bytes) → Lacks sep (drop start s) → piece_end sep start s ≡ size s
unfolding piece_end find_from
piece_end_of_Lacks sep start s h = rw (find_of_Lacks sep (drop start s) h, piece_end, find_from)

piece_end_of_IsFound :
    (sep start : ℕ) (s : Bytes) (f : IsFound sep (drop start s))
    → piece_end sep start s ≡ start + length f.before
unfolding piece_end find_from
piece_end_of_IsFound sep start s f = rw (f.found, piece_end, find_from)

module _ {ℓ} {S : Type ℓ} (sep : ℕ) (step : S → Bytes → S) where
  scan_past :
      (f start : ℕ) (s : Bytes) (acc : S)
      → size s ≤ start
      → scan_pieces sep step f start s acc ≡ acc
  unfolding scan_pieces
  scan_past zero start s acc h = refl
  scan_past (suc f) start s acc h = ground arith

  scan_step :
      (f start : ℕ) (s : Bytes) (acc : S)
      → start < size s
      → scan_pieces sep step (suc f) start s acc
        ≡ scan_pieces sep step f
            (piece_end sep start s + 1)
            s
            (step acc (substr s start (piece_end sep start s - start)))
  unfolding scan_pieces
  scan_step f start s acc h = rw (lt→ltb _ _ h)

  -- The last piece: no separator is left.
  scan_last :
      (f start : ℕ) (s : Bytes) (acc : S)
      → start < size s
      → Lacks sep (drop start s)
      → scan_pieces sep step (suc f) start s acc ≡ foldl step acc (pieces sep (drop start s))
  scan_last f start s acc lt h =
      let (x, t, e) = drop-ne-nil start s lt in
      let whole : take (size s - start) (drop start s) ≡ drop start s =
        rw (← length-drop start s) (take_all (drop start s)) in
      let single : pieces sep (drop start s) ≡ drop start s ∷ [] =
        rw e (pieces_last sep x t (rw e at h)) in
      scan_step f start s acc lt
      ∙ rw (piece_end_of_Lacks sep start s h, whole)
          (scan_past f (size s + 1) s _ (omega arith) ∙ sym (ap (foldl step acc) single))

  -- A piece that a separator ends, given that the rest of the loop is a fold.
  scan_next :
      (f start : ℕ) (s : Bytes) (acc : S) (i : IsFound sep (drop start s))
      → start < size s
      → scan_pieces sep step f (start + length i.before + 1) s (step acc i.before)
        ≡ foldl step (step acc i.before) (pieces sep (drop (start + length i.before + 1) s))
      → scan_pieces sep step (suc f) start s acc ≡ foldl step acc (pieces sep (drop start s))
  scan_next f start s acc i lt ih =
      let part : take (start + length i.before - start) (drop start s) ≡ i.before =
        let e : start + length i.before - start ≡ length i.before = omega arith in
        rw (e, i.text) (take-append i.before (sep ∷ i.after)) in
      let tail : drop (start + length i.before + 1) s ≡ i.after =
        let e : start + length i.before + 1 ≡ start + suc (length i.before) = omega arith in
        rw (e, drop-drop start (suc (length i.before)) s, i.text)
          (drop-append-cons i.before sep i.after) in
      let cut : pieces sep (drop start s) ≡ i.before ∷ pieces sep i.after =
        rw i.text (pieces_piece sep i.before i.after i.lacks) in
      scan_step f start s acc lt
      ∙ rw (piece_end_of_IsFound sep start s i, part) (ih ∙ rw tail (sym (ap (foldl step acc) cut)))

  -- As many rounds as there are bytes are enough, and the loop is a fold over the pieces.
  pub scan_pieces-foldl :
      (f start : ℕ) (s : Bytes) (acc : S)
      → size s < start + f
      → scan_pieces sep step f start s acc ≡ foldl step acc (pieces sep (drop start s))
  unfolding pieces
  scan_pieces-foldl zero start s acc h =
      rw (drop_past start s (omega arith)) (scan_past zero start s acc (omega arith))
  scan_pieces-foldl (suc f) start s acc h = elim (dec_lt start (size s)) [
    | yes lt ↦ elim (find-cases sep (drop start s)) [
      | inl (lacks, _) ↦ scan_last f start s acc lt lacks
      | inr i ↦
          scan_next f start s acc i lt
            (scan_pieces-foldl f (start + length i.before + 1) s (step acc i.before) (omega arith))
    ]
    | no le ↦ rw (drop_past start s (omega arith)) (scan_past (suc f) start s acc (omega arith))
  ]
