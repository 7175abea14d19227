-- ===== src/Analytics/Fixed.antt =====
-- Ordered categories (app/core/analytics/ordering.py, `order_fixed`).
use adus_be.Prelude.{
  ℕ, zero, suc, ◌+◌, ◌≡◌, refl, sym, ap, ◌∙◌, arith, ◌↔◌, true, false, Option, none, some, is_some,
  List, [], ◌∷◌, ◌++◌, map, String, eq_iff, contains, filter, any, if◌then◌else◌, stable_sort,
}
use mathlib.Core.Option.{some-injective}
use adus_be.Analytics.{
  BreakdownItem, count_of, same_slug, is_unknown, key_before, key_item, unset_item, order_fixed,
}
use adus_be.Analytics.Tallies.{
  sum_of, sum_of-append, sum_of-stable_sort, sum_of-filter, sum_of-map, Distinct, keys_of,
  sum_of-count_of,
}

same_slug_iff : (a b : Option String) → (same_slug a b ≡ true) ↔ (a ≡ b)
same_slug_iff none none = (λ h. refl, λ e. refl)
same_slug_iff none (some b) = (λ h. cc, λ e. cc)
same_slug_iff (some a) none = (λ h. cc, λ e. cc)
same_slug_iff (some a) (some b) =
    (λ h. ap some ((eq_iff a b).0 h), λ e. (eq_iff a b).1 (some-injective a b e))

abbrev pub known_keys : List (String × String) → List (Option String)
known_keys = map λ k. some (k.0)

abbrev count : BreakdownItem → ℕ
count item = item.count

-- where each entry of the counts is shown: under a known category, by its own key, or as unset
abbrev in_known : List (String × String) → Option String × ℕ → ℕ
in_known known c = if any (same_slug (c.0)) (known_keys known) then c.1 else 0

abbrev in_unknown : List (String × String) → Option String × ℕ → ℕ
in_unknown known c = if is_some (c.0) then (if is_unknown known c then c.1 else 0) else 0

abbrev in_unset : Option String × ℕ → ℕ
in_unset c = if any (same_slug (c.0)) (none ∷ []) then c.1 else 0

abbrev share : List (String × String) → Option String × ℕ → ℕ
share known c = in_known known c + (in_unknown known c + in_unset c)

any-same_slug-none :
    (known : List (String × String)) → any (same_slug none) (known_keys known) ≡ false
any-same_slug-none [] = refl
any-same_slug-none (k ∷ known) = any-same_slug-none known

any-same_slug-some :
    (key : String) (known : List (String × String))
    → any (same_slug (some key)) (known_keys known) ≡ contains key (map (λ k. k.0) known)
unfolding contains
any-same_slug-some key [] = refl
any-same_slug-some key (k ∷ known) =
    ground (arith, eq_iff key (k.0), eq_iff (k.0) key, any-same_slug-some key known)

share_all : (known : List (String × String)) (c : Option String × ℕ) → share known c ≡ c.1
share_all known (none, n) = ground (arith, any-same_slug-none known)
share_all known (some key, n) = ground (arith, any-same_slug-some key known)

sum_of-share :
    (known : List (String × String)) (counts : List (Option String × ℕ))
    → sum_of (share known) counts ≡ sum_of (λ c. c.1) counts
sum_of-share known [] = refl
sum_of-share known (c ∷ counts) = omega (arith, share_all known c, sum_of-share known counts)

sum_of_three :
    {A : Type 0} (f g h : A → ℕ) (xs : List A)
    → sum_of f xs + (sum_of g xs + sum_of h xs) ≡ sum_of (λ x. f x + (g x + h x)) xs
sum_of_three f g h [] = refl
sum_of_three f g h (x ∷ xs) = omega (arith, sum_of_three f g h xs)

count_unset_item : (label : String) (n : ℕ) → sum_of count (unset_item label n) ≡ n
count_unset_item label zero = refl
count_unset_item label (suc n) = omega arith

module _ (counts : List (Option String × ℕ)) (known : List (String × String))
    (unknown_label : String) where
  abbrev known_item : String × String → BreakdownItem
  known_item k = record {
    key = some (k.0);
    label = k.1;
    count = count_of same_slug (some (k.0)) counts;
  }

  abbrev unset : List BreakdownItem
  unset = unset_item unknown_label (count_of same_slug none counts)

  known_part :
      Distinct same_slug (known_keys known)
      → Distinct same_slug (keys_of same_slug counts)
      → sum_of (λ k. count_of same_slug (some (k.0)) counts) known ≡ sum_of (in_known known) counts
  known_part d e =
      sym (sum_of-map (λ k. some (k.0)) (λ k. count_of same_slug k counts) known)
      ∙ sum_of-count_of same_slug same_slug_iff (known_keys known) counts d e

  abbrev sorted : List (Option String × ℕ)
  sorted = stable_sort (λ a b. key_before a.0 b.0) (filter (λ c. is_some c.0) counts)

  unknown_part :
      sum_of count (map key_item (filter (is_unknown known) sorted))
      ≡ sum_of (in_unknown known) counts
  unknown_part =
      sum_of-map key_item count (filter (is_unknown known) sorted)
      ∙ sum_of-filter (is_unknown known) (λ c. c.1) sorted
      ∙ sum_of-stable_sort (λ a b. key_before a.0 b.0) (λ c. if is_unknown known c then c.1 else 0)
          (filter (λ c. is_some c.0) counts)
      ∙ sum_of-filter (λ c. is_some c.0) (λ c. if is_unknown known c then c.1 else 0) counts

  unset_part :
      Distinct same_slug (keys_of same_slug counts)
      → sum_of count (unset_item unknown_label (count_of same_slug none counts))
        ≡ sum_of in_unset counts
  unset_part e = omega (
    arith,
    count_unset_item unknown_label (count_of same_slug none counts),
    sum_of-count_of same_slug same_slug_iff (none ∷ []) counts (refl, tt) e,
  )

  -- Every count is shown, and once: with each known category and each key of the counts listed once, the
  -- items add up to the counts, also those of keys that are not known and of no key.
  pub order_fixed_total :
      Distinct same_slug (known_keys known)
      → Distinct same_slug (keys_of same_slug counts)
      → sum_of count (order_fixed counts known unknown_label) ≡ sum_of (λ c. c.1) counts
  unfolding order_fixed
  order_fixed_total d e =
      sum_of-append count (map known_item known)
        (map key_item (filter (is_unknown known) sorted) ++ unset)
      ∙ ap (λ n. sum_of count (map known_item known) + n)
          (sum_of-append count (map key_item (filter (is_unknown known) sorted)) unset)
      ∙ omega (
        arith,
        sum_of-map known_item count known,
        known_part d e,
        unknown_part,
        unset_part e,
        sum_of_three (in_known known) (in_unknown known) in_unset counts,
        sum_of-share known counts,
      )
