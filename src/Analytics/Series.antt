-- ===== src/Analytics/Series.antt =====
-- What a time series adds up to (app/core/analytics/ordering.py, `fill_series`).
use mathlib.Core.Option
use adus_be.Prelude.{
  ℕ, ◌≡◌, refl, ap, ◌∙◌, arith, true, false, Option, some, List, [], ◌∷◌, map, ltb, ◌==◌, ==_iff,
  any, all, IsRanked, if◌then◌else◌,
}
use adus_be.Analytics.{Granularity, SeriesPoint, point, fill_series}
use adus_be.Analytics.Tallies.{sum_of, sum_of-map, Distinct, keys_of, sum_of-count_of}
use adus_be.Analytics.Periods.{is_period, first_bound, overflows, last_bound, fill_periods_ok}

apart : (x : ℕ) (ys : List ℕ) → all (ltb x) ys ≡ true → any (λ y. x == y) ys ≡ false
apart x [] h = refl
apart x (y ∷ ys) h = ground (arith, apart x ys)

Distinct-of_IsRanked : (xs : List ℕ) → IsRanked ltb xs → Distinct ◌==◌ xs
Distinct-of_IsRanked [] s = tt
Distinct-of_IsRanked (x ∷ xs) (ahead, s) = (apart x xs ahead, Distinct-of_IsRanked xs s)

any_turned : (x : ℕ) (ys : List ℕ) → any (λ y. x == y) ys ≡ any (λ y. y == x) ys
any_turned x [] = refl
any_turned x (y ∷ ys) = ground (arith, any_turned x ys)

sum_of-same :
    {A : Type 0} (f g : A → ℕ) (xs : List A) → ((x : A) → f x ≡ g x) → sum_of f xs ≡ sum_of g xs
sum_of-same f g [] h = refl
sum_of-same f g (x ∷ xs) h = omega (arith, h x, sum_of-same f g xs h)

-- With one count per date, and bounds between which the series does not overflow, the points add up to
-- the counts of those dates that are periods between the bounds: gaps count as zero, and no such date
-- is lost or counted twice.
pub fill_series_total :
    (counts : List (ℕ × ℕ)) (start end : Option ℕ) (granularity : Granularity) (first last : ℕ)
    → Distinct ◌==◌ (keys_of ◌==◌ counts)
    → first_bound (map (λ c. c.0) counts) start end granularity ≡ some first
    → last_bound (map (λ c. c.0) counts) start end granularity ≡ some last
    → overflows granularity first last ≡ false
    → (points : List SeriesPoint) × (fill_series counts start end granularity ≡ some points)
      × (sum_of (λ p. SeriesPoint.count p) points
          ≡ sum_of (λ c. if is_period granularity first last c.0 then c.1 else 0) counts)
unfolding fill_series
fill_series_total counts start end granularity first last d f l fine =
    let dates = map (λ c. c.0) counts in
    let (periods, listed, each, ascending) =
      fill_periods_ok dates start end granularity first last f l fine in
    (
      map (point counts) periods,
      ap (Option.map (map (point counts))) listed,
      sum_of-map (point counts) (λ p. SeriesPoint.count p) periods
          ∙ sum_of-count_of ◌==◌ ==_iff periods counts (Distinct-of_IsRanked periods ascending) d
          ∙ sum_of-same _ _ counts
              λ c. ap (λ b. if b then c.1 else 0) (any_turned (c.0) periods ∙ each (c.0)),
    )
