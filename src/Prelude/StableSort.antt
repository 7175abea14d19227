-- ===== src/Prelude/StableSort.antt =====
-- Python's `list.sort`: stable, under a strict order `before`. Elements that neither precedes keep
-- the order they had, which a test `r` on the input describes.
use mathlib.Core.Path.{◌≡◌, refl, ap, sym, ◌∙◌}
use mathlib.Core.Bool.{Bool, true, false, ◌&&◌, ◌||◌, not}
use mathlib.Core.Logic.{inl, inr}
use mathlib.Core.List.{List, [], ◌∷◌, Perm}
use mathlib.Core.List.Perm
use native.Mathlib.Omega.{arith}
use adus_be.Prelude.Tests.{if◌then◌else◌, Bool-cases}
use adus_be.Prelude.Lists.{all, any, filter}

module _ {ℓ} {A : Type ℓ} where
  -- every earlier element stands to every later one as `r` asks
  abbrev pub IsRanked : (A → A → Bool) → List A → Type 0
  IsRanked r [] = Unit
  IsRanked r (x ∷ xs) = (all (r x) xs ≡ true) × IsRanked r xs

  pub record IsStrictOrder (before : A → A → Bool) : Type ℓ where
    pub asym : (a b : A) → before a b ≡ true → before b a ≡ false
    pub not_trans : (a b c : A) → before a b ≡ false → before b c ≡ false → before a c ≡ false

  -- in order under `before`, with `r` between equals
  abbrev pub or_tie : (before r : A → A → Bool) → A → A → Bool
  or_tie before r a b = not (before b a) && (before a b || r a b)

module _ {ℓ} {A : Type ℓ} (before : A → A → Bool) where
  -- ahead of the first element that does not precede it
  unfoldable pub place : A → List A → List A
  place x [] = x ∷ []
  place x (y ∷ ys) = let rest = place x ys in if before y x then y ∷ rest else x ∷ y ∷ ys

  unfoldable pub stable_sort : List A → List A
  stable_sort [] = []
  stable_sort (x ∷ xs) = place x (stable_sort xs)

  place-perm : (x : A) (ys : List A) → Perm (place x ys) (x ∷ ys)
  unfolding place
  place-perm x [] = Perm.rfl
  place-perm x (y ∷ ys) = elim (Bool-cases (before y x)) [
    | inl h ↦ rw h (Perm.trans (Perm.cons y (place-perm x ys)) (Perm.swap x y ys))
    | inr h ↦ rw h Perm.rfl
  ]

  pub stable_sort-perm : (xs : List A) → Perm (stable_sort xs) xs
  unfolding stable_sort
  stable_sort-perm [] = Perm.rfl
  stable_sort-perm (x ∷ xs) =
      Perm.trans (place-perm x (stable_sort xs)) (Perm.cons x (stable_sort-perm xs))

  all-place : (p : A → Bool) (x : A) (ys : List A) → all p (place x ys) ≡ (p x && all p ys)
  unfolding place
  all-place p x [] = refl
  all-place p x (y ∷ ys) = ground (arith, all-place p x ys)

  pub all-stable_sort : (p : A → Bool) (xs : List A) → all p (stable_sort xs) ≡ all p xs
  unfolding stable_sort
  all-stable_sort p [] = refl
  all-stable_sort p (x ∷ xs) = ground (arith, all-place p x (stable_sort xs), all-stable_sort p xs)

  pub any-place : (p : A → Bool) (x : A) (ys : List A) → any p (place x ys) ≡ (p x || any p ys)
  unfolding place
  any-place p x [] = refl
  any-place p x (y ∷ ys) = ground (arith, any-place p x ys)

  pub any-stable_sort : (p : A → Bool) (xs : List A) → any p (stable_sort xs) ≡ any p xs
  unfolding stable_sort
  any-stable_sort p [] = refl
  any-stable_sort p (x ∷ xs) = ground (arith, any-place p x (stable_sort xs), any-stable_sort p xs)

  module _ (order : IsStrictOrder before) (r : A → A → Bool) where
    -- what stands behind `y` may stand behind an equal that came first
    all-or_tie :
        (x y : A) (zs : List A)
        → before y x ≡ false
        → all (r x) zs ≡ true
        → all (or_tie before r y) zs ≡ true
        → all (or_tie before r x) zs ≡ true
    all-or_tie x y [] h t s = refl
    all-or_tie x y (z ∷ zs) h t s = ground (arith, order.not_trans z y x, all-or_tie x y zs h)

    place-IsRanked :
        (x : A) (ys : List A)
        → all (r x) ys ≡ true
        → IsRanked (or_tie before r) ys
        → IsRanked (or_tie before r) (place x ys)
    unfolding place
    place-IsRanked x [] t s = (refl, tt)
    place-IsRanked x (y ∷ ys) t (ahead, s) = elim (Bool-cases (before y x)) [
      | inl h ↦ rw h (
        ground (arith, all-place (or_tie before r y) x ys, order.asym y x h, ahead, h),
        place-IsRanked x ys (ground arith) s,
      )
      | inr h ↦ rw h (ground (arith, all-or_tie x y ys h (ground arith) ahead), (ahead, s))
    ]

    -- Sorting leaves the list in order, and equals as they stood.
    pub stable_sort-IsRanked :
        (xs : List A) → IsRanked r xs → IsRanked (or_tie before r) (stable_sort xs)
    unfolding stable_sort
    stable_sort-IsRanked [] _ = tt
    stable_sort-IsRanked (x ∷ xs) (ahead, s) =
        place-IsRanked x (stable_sort xs) (all-stable_sort (r x) xs ∙ ahead)
          (stable_sort-IsRanked xs s)

module _ {ℓ} {A : Type ℓ} {r s : A → A → Bool}
    (weaker : (a b : A) → r a b ≡ true → s a b ≡ true) where
  all-weaker : (x : A) (ys : List A) → all (r x) ys ≡ true → all (s x) ys ≡ true
  all-weaker x [] h = refl
  all-weaker x (y ∷ ys) h = ground (arith, weaker x y, all-weaker x ys)

  pub IsRanked-weaker : (xs : List A) → IsRanked r xs → IsRanked s xs
  IsRanked-weaker [] _ = tt
  IsRanked-weaker (x ∷ xs) (ahead, ranked) = (all-weaker x xs ahead, IsRanked-weaker xs ranked)

module _ {ℓ} {A : Type ℓ} where
  all-true : (xs : List A) → all (λ x. true) xs ≡ true
  all-true [] = refl
  all-true (x ∷ xs) = all-true xs

  pub IsRanked-trivial : (xs : List A) → IsRanked (λ a b. true) xs
  IsRanked-trivial [] = tt
  IsRanked-trivial (x ∷ xs) = (all-true xs, IsRanked-trivial xs)

module _ {ℓ} {A : Type ℓ} (before : A → A → Bool) where
  module _ (order : IsStrictOrder before) (p : A → Bool) where
    place-first :
        (x : A) (ys : List A) → all (λ y. not (before y x)) ys ≡ true → place before x ys ≡ x ∷ ys
    unfolding place
    place-first x [] h = refl
    place-first x (y ∷ ys) h = ground (arith, h)

    all-filter : (q : A → Bool) (ys : List A) → all q ys ≡ true → all q (filter p ys) ≡ true
    all-filter q [] h = refl
    all-filter q (y ∷ ys) h = ground (arith, all-filter q ys)

    behind :
        (x y : A) (zs : List A)
        → before y x ≡ false
        → all (or_tie before (λ a b. true) y) zs ≡ true
        → all (λ z. not (before z x)) zs ≡ true
    behind x y [] h s = refl
    behind x y (z ∷ zs) h s = ground (arith, order.not_trans z y x, behind x y zs h)

    filter-place :
        (x : A) (ys : List A)
        → IsRanked (or_tie before (λ a b. true)) ys
        → filter p (place before x ys) ≡ (if p x then place before x (filter p ys) else filter p ys)
    unfolding place
    filter-place x [] s = refl
    filter-place x (y ∷ ys) (ahead, s) = elim (Bool-cases (before y x)) [
      | inl h ↦ elim (Bool-cases (p x)) [
        | inl kept ↦ elim (Bool-cases (p y)) [
          | inl stays ↦
              rw (h, kept, stays, h) (ap (λ r. y ∷ r) (filter-place x ys s ∙ rw kept refl))
          | inr goes ↦ rw (h, kept, goes) (filter-place x ys s ∙ rw kept refl)
        ]
        | inr dropped ↦ elim (Bool-cases (p y)) [
          | inl stays ↦
              rw (h, dropped, stays) (ap (λ r. y ∷ r) (filter-place x ys s ∙ rw dropped refl))
          | inr goes ↦ rw (h, dropped, goes) (filter-place x ys s ∙ rw dropped refl)
        ]
      ]
      | inr h ↦ elim (Bool-cases (p x)) [
        | inl kept ↦
            rw (h, kept)
              (sym (
                place-first x (filter p (y ∷ ys)) (
                  all-filter (λ z. not (before z x)) (y ∷ ys)
                    (ground (arith, h, behind x y ys h ahead)))))
        | inr dropped ↦ rw (h, dropped) refl
      ]
    ]

    -- Filtering the sorted list is sorting the filtered one.
    pub filter-stable_sort :
        (xs : List A) → filter p (stable_sort before xs) ≡ stable_sort before (filter p xs)
    unfolding stable_sort
    filter-stable_sort [] = refl
    filter-stable_sort (x ∷ xs) =
        filter-place x (stable_sort before xs)
          (stable_sort-IsRanked before order (λ a b. true) xs (IsRanked-trivial xs))
        ∙ kept_or_not (filter-stable_sort xs)
      where
        kept_or_not :
            filter p (stable_sort before xs) ≡ stable_sort before (filter p xs)
            → (if p x
                then place before x (filter p (stable_sort before xs))
                else filter p (stable_sort before xs))
              ≡ stable_sort before (if p x then x ∷ filter p xs else filter p xs)
        kept_or_not rest = elim (Bool-cases (p x)) [
          | inl h ↦ rw h (ap (place before x) rest)
          | inr h ↦ rw h rest
        ]
