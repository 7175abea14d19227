-- ===== src/Analytics/Tallies.antt =====
-- Sums over counts (app/core/analytics/ordering.py): what `counts.get(key, 0)` adds up to.
use adus_be.Prelude.{
  ℕ, ◌+◌, ◌≡◌, refl, sym, ap, ◌∙◌, arith, ◌↔◌, Bool, true, false, Bool-cases, inl, inr, List, [],
  ◌∷◌, ◌++◌, map, filter, any, if◌then◌else◌, stable_sort, place,
}
use adus_be.Analytics.{count_of}

module _ {ℓ} {A : Type ℓ} where
  abbrev pub sum_of : (A → ℕ) → List A → ℕ
  sum_of f [] = 0
  sum_of f (x ∷ xs) = f x + sum_of f xs

  pub sum_of-append : (f : A → ℕ) (xs ys : List A) → sum_of f (xs ++ ys) ≡ sum_of f xs + sum_of f ys
  sum_of-append f [] ys = omega arith
  sum_of-append f (x ∷ xs) ys = omega (arith, sum_of-append f xs ys)

  sum_of-place :
      (before : A → A → Bool) (f : A → ℕ) (x : A) (xs : List A)
      → sum_of f (place before x xs) ≡ f x + sum_of f xs
  unfolding place
  sum_of-place before f x [] = refl
  sum_of-place before f x (y ∷ ys) = ground (arith, sum_of-place before f x ys)

  pub sum_of-stable_sort :
      (before : A → A → Bool) (f : A → ℕ) (xs : List A)
      → sum_of f (stable_sort before xs) ≡ sum_of f xs
  unfolding stable_sort
  sum_of-stable_sort before f [] = refl
  sum_of-stable_sort before f (x ∷ xs) =
      omega (arith, sum_of-place before f x (stable_sort before xs), sum_of-stable_sort before f xs)

  -- of what passes a filter
  pub sum_of-filter :
      (p : A → Bool) (f : A → ℕ) (xs : List A)
      → sum_of f (filter p xs) ≡ sum_of (λ x. if p x then f x else 0) xs
  sum_of-filter p f [] = refl
  sum_of-filter p f (x ∷ xs) = ground (arith, sum_of-filter p f xs)

pub sum_of-map {ℓ κ} :
    {A : Type ℓ} {B : Type κ} (g : B → A) (f : A → ℕ) (xs : List B)
    → sum_of f (map g xs) ≡ sum_of (λ b. f (g b)) xs
sum_of-map g f [] = refl
sum_of-map g f (x ∷ xs) = omega (arith, sum_of-map g f xs)

-- keys that a test tells apart
module _ {ℓ} {K : Type ℓ} (same : K → K → Bool) where
  abbrev pub Distinct : List K → Type 0
  Distinct [] = Unit
  Distinct (k ∷ ks) = (any (same k) ks ≡ false) × Distinct ks

  abbrev pub keys_of : List (K × ℕ) → List K
  keys_of = map λ c. c.0

  module _ (same_iff : (a b : K) → (same a b ≡ true) ↔ (a ≡ b)) where
    same_comm : (a b : K) → same a b ≡ same b a
    same_comm a b = ground (arith, same_iff a b, same_iff b a)

    count_of_absent :
        (k : K) (counts : List (K × ℕ))
        → any (same k) (keys_of counts) ≡ false
        → count_of same k counts ≡ 0
    count_of_absent k [] h = refl
    count_of_absent k ((j, n) ∷ counts) h =
        ground (arith, h, same_comm j k, count_of_absent k counts)

    -- one more entry counts for the key that it has, if that is asked for
    with_entry :
        (j : K) (n : ℕ) (counts : List (K × ℕ)) (known : List K)
        → count_of same j counts ≡ 0
        → Distinct known
        → sum_of (λ k. count_of same k ((j, n) ∷ counts)) known
          ≡ (if any (same j) known then n else 0) + sum_of (λ k. count_of same k counts) known
    with_entry j n counts [] h d = refl
    with_entry j n counts (k ∷ known) h (apart, d) = elim (Bool-cases (same j k)) [
      | inl hit ↦
          let alike = (same_iff j k).0 hit in
          let alone : any (same j) known ≡ false = ap (λ x. any (same x) known) alike ∙ apart in
          let absent : count_of same k counts ≡ 0 =
            ap (λ x. count_of same x counts) (sym alike) ∙ h in
          ground (arith, hit, alone, absent, with_entry j n counts known h d)
      | inr miss ↦ ground (arith, miss, with_entry j n counts known h d)
    ]

    none_counted : (known : List K) → sum_of (λ k. 0) known ≡ 0
    none_counted [] = refl
    none_counted (k ∷ known) = omega (arith, none_counted known)

    -- What is found under the keys that are asked for is what the entries with these keys hold.
    pub sum_of-count_of :
        (known : List K) (counts : List (K × ℕ))
        → Distinct known
        → Distinct (keys_of counts)
        → sum_of (λ k. count_of same k counts) known
          ≡ sum_of (λ c. if any (same (c.0)) known then c.1 else 0) counts
    sum_of-count_of known [] d e = none_counted known
    sum_of-count_of known ((j, n) ∷ counts) d (apart, e) =
        with_entry j n counts known (count_of_absent j counts apart) d
        ∙ ap (λ m. (if any (same j) known then n else 0) + m) (sum_of-count_of known counts d e)
