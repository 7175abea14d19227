-- ===== src/Prelude/Outcome.antt =====
-- A call that returns a value or raises an exception.
use mathlib.Core.Path.{◌≡◌, refl}
use mathlib.Core.Logic.{◌≢◌, ◌⊎◌, inl, inr}
use mathlib.Core.List.{List, [], ◌∷◌}

pub data Result {ℓ κ} (E : Type ℓ) (A : Type κ) : Type (ℓ ⊔ κ) where
  ok : A → Result E A
  err : E → Result E A

module _ {ℓ κ μ} {E : Type ℓ} {A : Type κ} {B : Type μ} where
  infixl 5 ◌>>=◌ ◌>>◌
  -- The exception leaves the caller too.
  abbrev pub ◌>>=◌ : Result E A → (A → Result E B) → Result E B
  err raised >>= next = err raised
  ok value >>= next = next value

  abbrev pub ◌>>◌ : Result E A → Result E B → Result E B
  first >> second = first >>= λ _. second

  -- A chain of calls that returned: its parts returned.
  pub >>=-eq-ok :
      (call : Result E A) (next : A → Result E B) {last : B}
      → call >>= next ≡ ok last
      → (value : A) × (call ≡ ok value) × (next value ≡ ok last)
  >>=-eq-ok (err raised) next returned = cc
  >>=-eq-ok (ok value) next returned = (value, refl, returned)

module _ {ℓ κ μ} {E : Type ℓ} {A : Type κ} {B : Type μ} where
  -- A chain that raised: one of its parts did.
  pub >>=-eq-err :
      (call : Result E A) (next : A → Result E B) {e : E}
      → call >>= next ≡ err e
      → (call ≡ err e) ⊎ ((value : A) × (call ≡ ok value) × (next value ≡ err e))
  >>=-eq-err (err raised) next h = inl cc
  >>=-eq-err (ok value) next h = inr (value, refl, h)

-- A comprehension whose body may raise.
abbrev pub traverse {ℓ κ μ} :
    {E : Type ℓ} {A : Type κ} {B : Type μ} → (A → Result E B) → List A → Result E (List B)
traverse body [] = ok []
traverse body (x ∷ xs) = body x >>= λ y. traverse body xs >>= λ ys. ok (y ∷ ys)

-- To split on a computed result and keep the equation.
pub Result-cases {ℓ κ} :
    {E : Type ℓ} {A : Type κ} (r : Result E A) → ((a : A) × (r ≡ ok a)) ⊎ ((e : E) × (r ≡ err e))
Result-cases (ok a) = inl (a, refl)
Result-cases (err e) = inr (e, refl)

pub ok-injective {ℓ κ} :
    {E : Type ℓ} {A : Type κ} {a b : A} → ◌≡◌ {A = Result E A} (ok a) (ok b) → a ≡ b
ok-injective h = cc

pub err-injective {ℓ κ} :
    {E : Type ℓ} {A : Type κ} {a b : E} → ◌≡◌ {A = Result E A} (err a) (err b) → a ≡ b
err-injective h = cc

pub ok≢err {ℓ κ} : {E : Type ℓ} {A : Type κ} {a : A} {e : E} → ◌≢◌ {A = Result E A} (ok a) (err e)
ok≢err h = cc
