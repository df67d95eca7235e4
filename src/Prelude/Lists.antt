-- ===== src/Prelude/Lists.antt =====
-- Lists measured and indexed by native numbers, and a predicate that holds of every element.
use Prim.Native.Nat.{ℕ, zero, suc, ◌+◌, ◌-◌, ◌<◌, ◌≤◌, min}
use mathlib.Core.Path.{◌≡◌, refl, ap, sym}
use mathlib.Core.List.{List, [], ◌∷◌, ◌++◌}
use mathlib.Core.Option.{Option, none, some}
use native.Mathlib.Omega.{arith}
use native.Mathlib.Nat.{zero-add, suc-add}

module _ {ℓ} {A : Type ℓ} where
  abbrev pub length : List A → ℕ
  length [] = 0
  length (x ∷ xs) = suc (length xs)

  abbrev pub take : ℕ → List A → List A
  take zero xs = []
  take (suc n) [] = []
  take (suc n) (x ∷ xs) = x ∷ take n xs

  abbrev pub drop : ℕ → List A → List A
  drop zero xs = xs
  drop (suc n) [] = []
  drop (suc n) (x ∷ xs) = drop n xs

  abbrev pub get_elem? : List A → ℕ → Option A
  get_elem? [] i = none
  get_elem? (x ∷ xs) zero = some x
  get_elem? (x ∷ xs) (suc i) = get_elem? xs i

module _ {ℓ} {A : Type ℓ} where
  pub length-append : (xs ys : List A) → length (xs ++ ys) ≡ length xs + length ys
  length-append [] ys = omega arith
  length-append (x ∷ xs) ys = omega (arith, length-append xs ys)

  pub take-append : (xs ys : List A) → take (length xs) (xs ++ ys) ≡ xs
  take-append [] ys = refl
  take-append (x ∷ xs) ys = ap (λ t. x ∷ t) (take-append xs ys)

  pub drop-append : (xs ys : List A) → drop (length xs) (xs ++ ys) ≡ ys
  drop-append [] ys = refl
  drop-append (x ∷ xs) ys = drop-append xs ys

  -- The tail behind a prefix and one more element.
  pub drop-append-cons :
      (xs : List A) (y : A) (ys : List A) → drop (suc (length xs)) (xs ++ y ∷ ys) ≡ ys
  drop-append-cons [] y ys = refl
  drop-append-cons (x ∷ xs) y ys = drop-append-cons xs y ys

  pub take_all : (xs : List A) → take (length xs) xs ≡ xs
  take_all [] = refl
  take_all (x ∷ xs) = ap (λ t. x ∷ t) (take_all xs)

  pub length-drop : (n : ℕ) (xs : List A) → length (drop n xs) ≡ length xs - n
  length-drop zero xs = omega arith
  length-drop (suc n) [] = omega arith
  length-drop (suc n) (x ∷ xs) = omega (arith, length-drop n xs)

  pub length-take : (n : ℕ) (xs : List A) → length (take n xs) ≡ min n (length xs)
  length-take zero xs = omega arith
  length-take (suc n) [] = omega arith
  length-take (suc n) (x ∷ xs) = omega (arith, length-take n xs)

  -- An index in range is read, and is where the rest of the list starts.
  pub get_elem?-drop :
      (xs : List A) (i : ℕ)
      → i < length xs
      → (x : A) × (get_elem? xs i ≡ some x) × (drop i xs ≡ x ∷ drop (suc i) xs)
  get_elem?-drop [] i h = absurd (omega arith)
  get_elem?-drop (x ∷ xs) zero h = (x, refl, refl)
  get_elem?-drop (x ∷ xs) (suc i) h = get_elem?-drop xs i (omega arith)

  pub take-append-drop : (n : ℕ) (xs : List A) → take n xs ++ drop n xs ≡ xs
  take-append-drop zero xs = refl
  take-append-drop (suc n) [] = refl
  take-append-drop (suc n) (x ∷ xs) = ap (λ t. x ∷ t) (take-append-drop n xs)

drop_nil {ℓ} : {A : Type ℓ} (n : ℕ) → drop n (let e : List A = [] in e) ≡ []
drop_nil zero = refl
drop_nil (suc n) = refl

pub drop-drop {ℓ} : {A : Type ℓ} (m n : ℕ) (s : List A) → drop (m + n) s ≡ drop n (drop m s)
drop-drop zero n s = rw zero-add
drop-drop (suc m) n [] = rw suc-add (sym (drop_nil n))
drop-drop (suc m) n (x ∷ s) = rw suc-add (drop-drop m n s)

pub drop_past {ℓ} : {A : Type ℓ} (n : ℕ) (s : List A) → length s ≤ n → drop n s ≡ []
drop_past zero [] h = refl
drop_past zero (x ∷ s) h = absurd (omega arith)
drop_past (suc n) [] h = refl
drop_past (suc n) (x ∷ s) h = drop_past n s (omega arith)

module _ {ℓ} {A : Type ℓ} where
  take-min : (c : ℕ) (l : List A) → take (min c (length l)) l ≡ take c l
  take-min zero l = let e : min 0 (length l) ≡ 0 = omega arith in rw e
  take-min (suc c) [] = let e : min (suc c) 0 ≡ 0 = omega arith in rw e
  take-min (suc c) (x ∷ l) =
      let e : min (suc c) (suc (length l)) ≡ suc (min c (length l)) = omega arith in
      rw e (ap (λ t. x ∷ t) (take-min c l))

  -- The elements from `i` to `i + c`, or to the end, and what is behind them.
  pub slice-append-drop :
      (i c : ℕ) (l : List A)
      → take (min (i + c) (length l) - i) (drop i l) ++ drop (i + c) l ≡ drop i l
  slice-append-drop i c l =
      let e : min (i + c) (length l) - i ≡ min c (length (drop i l)) =
        rw (length-drop i l) (omega arith) in
      rw (e, drop-drop i c l, take-min c (drop i l)) (take-append-drop c (drop i l))

module _ {ℓ κ} {A : Type ℓ} (P : A → Type κ) where
  abbrev pub All : List A → Type κ
  All [] = Unit
  All (x ∷ xs) = P x × All xs

  pub All-append : (xs ys : List A) → All xs → All ys → All (xs ++ ys)
  All-append [] ys _ hy = hy
  All-append (x ∷ xs) ys (px, hx) hy = (px, All-append xs ys hx hy)
