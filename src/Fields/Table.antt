-- ===== src/Fields/Table.antt =====
-- `std::unordered_map<string, V>` as an association list that holds each key once. The order of
-- the entries stands for the unspecified order of the map; nothing below depends on it.
use http_web_framework.Prelude.{
  Bool-cases, List, Option, [], arith, false, if◌then◌else◌, inl, inr, is_some, none, refl, some,
  ◌∷◌, ◌≡◌,
}
use http_web_framework.Text.{Bytes, same_text, same_text_iff, same_text_sym}

abbrev pub HashMap {ℓ} : Type ℓ → Type ℓ
HashMap V = List (Bytes × V)

module _ {ℓ} {V : Type ℓ} where
  -- `m.find(key)`
  unfoldable pub lookup : Bytes → HashMap V → Option V
  lookup k [] = none
  lookup k ((j, v) ∷ m) = if same_text j k then some v else lookup k m

  -- `m[key] = value`
  unfoldable pub insert : Bytes → V → HashMap V → HashMap V
  insert k v [] = (k, v) ∷ []
  insert k v ((j, w) ∷ m) =
      let rest = (j, w) ∷ insert k v m in if same_text j k then (j, v) ∷ m else rest

  -- `m.erase(key)`
  unfoldable pub erase : Bytes → HashMap V → HashMap V
  erase k [] = []
  erase k ((j, v) ∷ m) = let rest = erase k m in if same_text j k then rest else (j, v) ∷ rest

  -- `for (const auto& [key, value] : entries) m[key] = value;`
  unfoldable pub insert_all : HashMap V → HashMap V → HashMap V
  unfolding insert
  insert_all [] m = m
  insert_all ((k, v) ∷ entries) m = insert_all entries (insert k v m)

  -- The key that was written has the new value, every other key what it had.
  pub lookup-insert :
      (written wanted : Bytes) (v : V) (m : HashMap V)
      → lookup wanted (insert written v m)
        ≡ (if same_text written wanted then some v else lookup wanted m)
  unfolding lookup insert
  lookup-insert written wanted v [] = refl
  lookup-insert written wanted v ((k, w) ∷ m) = ground (
    arith,
    lookup-insert written wanted v m,
    same_text_iff k wanted,
    same_text_iff k written,
    same_text_iff written wanted,
  )

  pub lookup-erase :
      (k j : Bytes) (m : HashMap V)
      → lookup j (erase k m) ≡ (if same_text k j then none else lookup j m)
  unfolding lookup erase
  lookup-erase k j [] = ground arith
  lookup-erase k j ((i, w) ∷ m) =
      ground (arith, same_text_iff i k, same_text_iff i j, same_text_iff k j, lookup-erase k j m)

  -- Each key once.
  abbrev pub IsTable : HashMap V → Type 0
  IsTable [] = Unit
  IsTable ((k, v) ∷ m) = (is_some (lookup k m) ≡ false) × IsTable m

  pub insert-IsTable : (k : Bytes) (v : V) (m : HashMap V) → IsTable m → IsTable (insert k v m)
  unfolding insert lookup
  insert-IsTable k v [] t = (refl, tt)
  insert-IsTable k v ((j, w) ∷ m) (free, t) = elim (Bool-cases (same_text j k)) [
    | inl same ↦ rw same (free, t)
    | inr other ↦
        rw other (ground (arith, lookup-insert k j v m, same_text_sym j k), insert-IsTable k v m t)
  ]

  -- Adding the entries of a table lets them win over those that were there.
  pub lookup-insert_all :
      (j : Bytes) (entries m : HashMap V)
      → IsTable entries
      → lookup j (insert_all entries m)
        ≡ (elim (lookup j entries) [ none ↦ lookup j m | some v ↦ some v ])
  unfolding insert_all lookup
  lookup-insert_all j [] m t = refl
  lookup-insert_all j ((k, v) ∷ entries) m (free, t) = elim (Bool-cases (same_text k j)) [
    | inl same ↦
        let e = (same_text_iff k j).0 same in
        ground (arith, lookup-insert_all j entries (insert k v m) t, lookup-insert k j v m)
    | inr other ↦
        ground (arith, lookup-insert_all j entries (insert k v m) t, lookup-insert k j v m)
  ]
