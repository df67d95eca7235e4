-- ===== src/Fields/Values.antt =====
-- The value that is found by name, where an entry has a name and a value: the form in which
-- headers and cookies are read.
use mathlib.Core.Option
use http_web_framework.Prelude.{
  Bool-cases, List, Option, [], ap, arith, if◌then◌else◌, inl, inr, is_some, none, some, ◌++◌, ◌∷◌,
  ◌≡◌,
}
use http_web_framework.Text.{Bytes, same_text, same_text_iff}
use http_web_framework.Fields.Vector.{
  any_of, any_of-find_if, find_if, find_if-push, find_if-remove, find_if-update_ne,
  find_if-update_self, named, remove_if, update_or_push,
}

val_of_elim {ℓ} :
    {A : Type ℓ} (val : A → Bytes) (o : Option A) (f : A → A) (fresh : A) (v : Bytes)
    → val fresh ≡ v
    → ((a : A) → val (f a) ≡ v)
    → val (elim o [ none ↦ fresh | some a ↦ f a ]) ≡ v
val_of_elim val none f fresh v e h = e
val_of_elim val (some a) f fresh v e h = h a

module _ {ℓ} {A : Type ℓ} (key val : A → Bytes) where
  pub value-update :
      (k j v : Bytes) (f : A → A) (fresh : A) (l : List A)
      → key fresh ≡ k
      → ((a : A) → key a ≡ k → key (f a) ≡ k)
      → val fresh ≡ v
      → ((a : A) → val (f a) ≡ v)
      → Option.map val (find_if (named key j) (update_or_push (named key k) f fresh l))
        ≡ (if same_text k j then some v else Option.map val (find_if (named key j) l))
  value-update k j v f fresh l e keep ev hv = elim (Bool-cases (same_text k j)) [
    | inl same ↦ rw same (
        rw (← (same_text_iff k j).0 same) (
          rw (find_if-update_self key k f fresh l e keep)
            (ap some (val_of_elim val (find_if (named key k) l) f fresh v ev hv))))
    | inr other ↦ rw (other, find_if-update_ne key k j f fresh l other e keep)
  ]

  pub value-remove :
      (k j : Bytes) (l : List A)
      → Option.map val (find_if (named key j) (remove_if (named key k) l))
        ≡ (if same_text k j then none else Option.map val (find_if (named key j) l))
  value-remove k j l = rw (find_if-remove key k j l) (ground arith)

  pub value-push :
      (j : Bytes) (l : List A) (a : A)
      → Option.map val (find_if (named key j) (l ++ a ∷ []))
        ≡ (elim (Option.map val (find_if (named key j) l)) [
          | some v ↦ some v
          | none ↦ if same_text (key a) j then some (val a) else none
        ])
  value-push j l a = rw (find_if-push (named key j) l a) (ground arith)

  pub is_some-value :
      (j : Bytes) (l : List A)
      → any_of (named key j) l ≡ is_some (Option.map val (find_if (named key j) l))
  is_some-value j l = rw (any_of-find_if (named key j) l) (ground arith)
