-- ===== src/Fields/Vector.antt =====
-- A vector of entries searched by name; the laws relate a search after a change to one before it.
use http_web_framework.Prelude.{
  Bool, Bool-cases, List, Option, [], arith, false, if◌then◌else◌, inl, inr, is_some, none, refl,
  some, ◌++◌, ◌||◌, ◌∷◌, ◌≡◌,
}
use http_web_framework.Text.{Bytes, same_text, same_text_iff, same_text_refl}

module _ {ℓ} {A : Type ℓ} where
  -- `std::find_if`: the first match.
  unfoldable pub find_if : (A → Bool) → List A → Option A
  find_if p [] = none
  find_if p (a ∷ l) = if p a then some a else find_if p l

  -- `std::any_of`
  unfoldable pub any_of : (A → Bool) → List A → Bool
  any_of p [] = false
  any_of p (a ∷ l) = p a || any_of p l

  -- `v.erase(std::remove_if(…), v.end())`
  unfoldable pub remove_if : (A → Bool) → List A → List A
  remove_if p [] = []
  remove_if p (a ∷ l) = let rest = remove_if p l in if p a then rest else a ∷ rest

  -- `auto it = std::find_if(…); if (it != v.end()) *it = f(*it); else v.push_back(fresh);`
  unfoldable pub update_or_push : (A → Bool) → (A → A) → A → List A → List A
  update_or_push p f fresh [] = fresh ∷ []
  update_or_push p f fresh (a ∷ l) =
      let rest = a ∷ update_or_push p f fresh l in if p a then f a ∷ l else rest

-- `[name](const auto& entry) { return entry.name == name; }`
abbrev pub named {ℓ} : {A : Type ℓ} → (A → Bytes) → Bytes → A → Bool
named key k a = same_text (key a) k

module _ {ℓ} {A : Type ℓ} where
  pub any_of-find_if : (p : A → Bool) (l : List A) → any_of p l ≡ is_some (find_if p l)
  unfolding any_of find_if
  any_of-find_if p [] = refl
  any_of-find_if p (a ∷ l) = ground (arith, any_of-find_if p l)

  -- A new entry at the end is found if there was none.
  pub find_if-push :
      (p : A → Bool) (l : List A) (a : A)
      → find_if p (l ++ a ∷ [])
        ≡ (elim (find_if p l) [ none ↦ if p a then some a else none | some b ↦ some b ])
  unfolding find_if
  find_if-push p [] a = refl
  find_if-push p (b ∷ l) a = ground (arith, find_if-push p l a)

module _ {ℓ} {A : Type ℓ} (key : A → Bytes) where
  -- A search by another name does not see the change.
  pub find_if-update_ne :
      (k j : Bytes) (f : A → A) (fresh : A) (l : List A)
      → same_text k j ≡ false
      → key fresh ≡ k
      → ((a : A) → key a ≡ k → key (f a) ≡ k)
      → find_if (named key j) (update_or_push (named key k) f fresh l) ≡ find_if (named key j) l
  unfolding find_if update_or_push
  find_if-update_ne k j f fresh [] ne e keep = rw (e, ne)
  find_if-update_ne k j f fresh (a ∷ l) ne e keep = elim (Bool-cases (same_text (key a) k)) [
    | inl same ↦ let here = (same_text_iff (key a) k).0 same in rw (same, keep a here, here, ne)
    | inr other ↦ rw other (ground (arith, find_if-update_ne k j f fresh l ne e keep))
  ]

  -- A search by the name itself finds the changed entry, or the new one.
  pub find_if-update_self :
      (k : Bytes) (f : A → A) (fresh : A) (l : List A)
      → key fresh ≡ k
      → ((a : A) → key a ≡ k → key (f a) ≡ k)
      → find_if (named key k) (update_or_push (named key k) f fresh l)
        ≡ some (elim (find_if (named key k) l) [ none ↦ fresh | some a ↦ f a ])
  unfolding find_if update_or_push
  find_if-update_self k f fresh [] e keep = rw (e, same_text_refl k)
  find_if-update_self k f fresh (a ∷ l) e keep = elim (Bool-cases (same_text (key a) k)) [
    | inl same ↦ rw (same, keep a ((same_text_iff (key a) k).0 same), same_text_refl k)
    | inr other ↦ rw other (ground (arith, find_if-update_self k f fresh l e keep))
  ]

  pub find_if-remove :
      (k j : Bytes) (l : List A)
      → find_if (named key j) (remove_if (named key k) l)
        ≡ (if same_text k j then none else find_if (named key j) l)
  unfolding find_if remove_if
  find_if-remove k j [] = ground arith
  find_if-remove k j (a ∷ l) = ground (
    arith,
    find_if-remove k j l,
    same_text_iff (key a) k,
    same_text_iff (key a) j,
    same_text_iff k j,
  )
