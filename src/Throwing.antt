-- ===== src/Throwing.antt =====
-- C++ exceptions: what is thrown, the result of a call that may throw, and the calls that change a
-- state and may throw, with their sequence and their handlers. What was changed before a throw stays
-- changed.
use http_web_framework.Prelude.{
  Bool, arith, false, if◌then◌else◌, inl, inr, refl, true, ℕ, ◌≡◌, ◌⊎◌,
}
use http_web_framework.Text.{Bytes}

-- std::runtime_error, std::future_error by its code, std::bad_optional_access, the exceptions of
-- other classes below std::exception, and values that are not of such a class.
pub data Exception : Type 0 where
  runtime_error : Bytes → Exception
  promise_already_satisfied : Exception
  future_already_retrieved : Exception
  broken_promise : Exception
  bad_optional_access : Exception
  user_exception : ℕ → Exception
  foreign_value : ℕ → Exception

-- Whether `catch (const std::exception&)` takes it.
unfoldable pub is_std : Exception → Bool
is_std (foreign_value n) = false
is_std e = true

-- `e.what()`; the texts of the library's own exceptions are a parameter.
unfoldable pub what : (Exception → Bytes) → Exception → Bytes
what text (runtime_error m) = m
what text e = text e

-- The result of a call: a value, or what it throws.
pub data Result {ℓ} (A : Type ℓ) : Type ℓ where
  returned : A → Result A
  threw : Exception → Result A

-- `void` as a type of values.
abbrev pub Void : Type 0
Void = Unit

abbrev pub Action : Type 0 → Type 0 → Type 0
Action S A = S → Result A × S

module _ {S A : Type 0} where
  abbrev pub pure : A → Action S A
  pure a s = (returned a, s)

  abbrev pub raise : Exception → Action S A
  raise e s = (threw e, s)

  -- `try { m } catch (...) { h }`
  abbrev pub catch_any : Action S A → (Exception → Action S A) → Action S A
  catch_any m h s = let (r, s') = m s in elim r [ returned a ↦ (returned a, s') | threw e ↦ h e s' ]

  -- `try { m } catch (const std::exception& e) { h }`
  abbrev pub catch_std : Action S A → (Exception → Action S A) → Action S A
  catch_std m h = catch_any m (λ e. if is_std e then h e else raise e)

infixl 5 ◌>>=◌ ◌>>◌
abbrev pub ◌>>=◌ : {S A B : Type 0} → Action S A → (A → Action S B) → Action S B
◌>>=◌ m f s = let (r, s') = m s in elim r [ returned a ↦ f a s' | threw e ↦ (threw e, s') ]

abbrev pub ◌>>◌ : {S A B : Type 0} → Action S A → Action S B → Action S B
m >> k = m >>= λ _. k

-- A change of the state that does not throw.
abbrev pub modify : {S : Type 0} → (S → S) → Action S Void
modify f s = (returned tt, f s)

pub Result-cases {ℓ} :
    {A : Type ℓ} (r : Result A) → ((a : A) × (r ≡ returned a)) ⊎ ((e : Exception) × (r ≡ threw e))
Result-cases (returned a) = inl (a, refl)
Result-cases (threw e) = inr (e, refl)

-- The rest of a sequence runs from the state behind what returned.
pub run_returned :
    {S A B : Type 0} (m : Action S A) (f : A → Action S B) (a : A) (s s' : S)
    → m s ≡ (returned a, s')
    → (m >>= f) s ≡ f a s'
run_returned m f a s s' h = ground arith

pub run_threw :
    {S A B : Type 0} (m : Action S A) (f : A → Action S B) (e : Exception) (s s' : S)
    → m s ≡ (threw e, s')
    → (m >>= f) s ≡ (threw e, s')
run_threw m f e s s' h = ground arith
