-- ===== src/Prelude/Slices.antt =====
-- Python's list slices `xs[a:b]`, and the pages they cut a list into.
use Prim.Native.Nat.{ℕ, zero, suc, ◌-◌, ◌≤◌, min}
use mathlib.Core.Path.{◌≡◌, refl, ap, sym, ◌∙◌}
use mathlib.Core.List.{List, [], ◌∷◌, ◌++◌}
use native.Mathlib.Omega.{arith}
use adus_be.Prelude.Lists.{length}

module _ {ℓ} {A : Type ℓ} where
  -- `xs[:n]`
  unfoldable pub take : ℕ → List A → List A
  take (suc n) (x ∷ xs) = x ∷ take n xs
  take _ _ = []

  -- `xs[n:]`
  unfoldable pub drop : ℕ → List A → List A
  drop (suc n) (x ∷ xs) = drop n xs
  drop _ xs = xs

  -- `xs[first:last]`
  abbrev pub slice : ℕ → ℕ → List A → List A
  slice first last xs = take (last - first) (drop first xs)

  pub length-take : (n : ℕ) (xs : List A) → length (take n xs) ≡ min n (length xs)
  unfolding take
  length-take (suc n) (x ∷ xs) = omega (arith, length-take n xs)
  length-take _ _ = omega arith

  pub length-drop : (n : ℕ) (xs : List A) → length (drop n xs) ≡ length xs - n
  unfolding drop
  length-drop (suc n) (x ∷ xs) = omega (arith, length-drop n xs)
  length-drop _ _ = omega arith

  pub take_nil : (n : ℕ) → take n [] ≡ []
  unfolding take
  take_nil zero = refl
  take_nil (suc n) = refl

  -- A prefix is a shorter one and the slice behind it.
  pub take-slice :
      (first last : ℕ) (xs : List A)
      → first ≤ last
      → take last xs ≡ take first xs ++ slice first last xs
  unfolding take drop
  take-slice zero last xs h = ap (λ k. take k xs) (omega arith)
  take-slice (suc first) zero xs h = absurd (omega arith)
  take-slice (suc first) (suc last) [] h = sym (take_nil (suc last - suc first))
  take-slice (suc first) (suc last) (x ∷ xs) h =
      ap (λ r. x ∷ r)
        (take-slice first last xs (omega arith)
          ∙ ap (λ k. take first xs ++ take k (drop first xs)) (omega arith))

  pub take_all : (n : ℕ) (xs : List A) → length xs ≤ n → take n xs ≡ xs
  unfolding take
  take_all zero [] _ = refl
  take_all (suc n) [] _ = refl
  take_all zero (x ∷ xs) h = absurd (omega arith)
  take_all (suc n) (x ∷ xs) h = ap (λ r. x ∷ r) (take_all n xs (omega arith))
