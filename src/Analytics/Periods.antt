-- ===== src/Analytics/Periods.antt =====
-- Time series (app/core/analytics/ordering.py, `fill_periods` and `fill_series`).
use mathlib.Core.Option
use mathlib.Core.Option.{some-injective}
use mathlib.Core.Path.{subst}
use adus_be.Prelude.{
  ℕ, zero, suc, ◌+◌, ◌-◌, ◌%◌, ◌≤◌, ◌<◌, ◌≡◌, ◌↔◌, refl, sym, ap, ◌∙◌, arith, Bool, true, false,
  ◌&&◌, Bool-cases, inl, inr, Option, none, some, List, [], ◌∷◌, ltb, leb, ◌==◌, any, all, head?,
  stable_sort, IsRanked, if◌then◌else◌,
}
use adus_be.Analytics.{
  Granularity, day, week, period_start, step, bound, last?, or_first, date_max, periods_from,
  fill_periods,
}

-- the dates that a series of this granularity from `first` to `last` has
abbrev pub is_period : Granularity → ℕ → ℕ → ℕ → Bool
is_period granularity first last date =
    leb first date && leb date last && ((date - first) % step granularity == 0)

-- the loop in numbers without a greatest date
abbrev pub dates_from : ℕ → ℕ → ℕ → ℕ → List ℕ
dates_from zero step current last = []
dates_from (suc fuel) step current last =
    let rest = dates_from fuel step (current + step) last in
    if leb current last then current ∷ rest else []

-- the step from the last date of the series passes the greatest date
abbrev pub overflows : Granularity → ℕ → ℕ → Bool
overflows granularity first last =
    leb first last && ltb date_max (last - (last - first) % step granularity + step granularity)

overflows-now :
    (granularity : Granularity) (current last : ℕ)
    → current ≤ last
    → date_max < current + step granularity
    → overflows granularity current last ≡ true
overflows-now day current last h late = ground arith
overflows-now week current last h late = ground arith

overflows-next :
    (granularity : Granularity) (current last : ℕ)
    → current ≤ last
    → current + step granularity ≤ date_max
    → overflows granularity (current + step granularity) last ≡ overflows granularity current last
overflows-next day current last h early = ground arith
overflows-next week current last h early = ground arith

periods_from_lem :
    (granularity : Granularity) (fuel current last : ℕ)
    → last < current + fuel
    → periods_from fuel (step granularity) current last ≡ (
        if overflows granularity current last
        then none
        else some (dates_from fuel (step granularity) current last))
periods_from_lem day zero current last h = ground arith
periods_from_lem week zero current last h = ground arith
periods_from_lem granularity (suc fuel) current last h = elim (Bool-cases (leb current last)) [
  | inl more ↦ elim (Bool-cases (ltb date_max (current + step granularity))) [
    | inl late ↦
        let over =
          overflows-now granularity current last (ground (arith, more)) (ground (arith, late)) in
        rw (over, more, late) refl
    | inr early ↦
        let next =
          overflows-next granularity current last (ground (arith, more)) (ground (arith, early)) in
        let rest =
          periods_from_lem granularity fuel (current + step granularity) last
            (later granularity h) in
        elim (Bool-cases (overflows granularity current last)) [
          | inl over ↦
              let tail : periods_from fuel (step granularity) (current + step granularity) last
                  ≡ none =
                rest ∙ rw (next ∙ over) refl in
              rw (over, more, early) (ap (Option.map (λ dates. current ∷ dates)) tail)
          | inr fine ↦
              let tail : periods_from fuel (step granularity) (current + step granularity) last
                  ≡ some (dates_from fuel (step granularity) (current + step granularity) last) =
                rest ∙ rw (next ∙ fine) refl in
              rw (fine, more, early) (ap (Option.map (λ dates. current ∷ dates)) tail)
        ]
  ]
  | inr done ↦
      let fine : overflows granularity current last ≡ false = rw done refl in rw (fine, done) refl
]
  where
    later : (g : Granularity) → last < current + suc fuel → last < current + step g + fuel
    later day h = omega arith
    later week h = omega arith

any-dates_from :
    (granularity : Granularity) (fuel current last date : ℕ)
    → last < current + fuel
    → any (λ p. p == date) (dates_from fuel (step granularity) current last)
      ≡ is_period granularity current last date
any-dates_from day zero current last date h = ground arith
any-dates_from week zero current last date h = ground arith
any-dates_from day (suc fuel) current last date h =
    ground (arith, any-dates_from day fuel (current + 1) last date)
any-dates_from week (suc fuel) current last date h =
    ground (arith, any-dates_from week fuel (current + 7) last date)

-- A date lies in the period that it falls in, which starts on it or, by weeks, on a Monday; and a start
-- of a period is its own.
pub period_start_lem :
    (granularity : Granularity) (date : ℕ)
    → 1 ≤ date
    → let start = period_start date granularity in
      (start ≤ date)
      × (date < start + step granularity)
      × (period_start start granularity ≡ start)
      × (granularity ≡ week → (start + 6) % 7 ≡ 0)
period_start_lem day date h = (omega arith, omega arith, refl, λ e. cc)
period_start_lem week date h = (omega arith, omega arith, omega arith, λ e. omega arith)

later_than :
    (granularity : Granularity) (fuel x current last : ℕ)
    → x < current
    → all (ltb x) (dates_from fuel (step granularity) current last) ≡ true
later_than granularity zero x current last h = refl
later_than day (suc fuel) x current last h =
    ground (arith, later_than day fuel x (current + 1) last)
later_than week (suc fuel) x current last h =
    ground (arith, later_than week fuel x (current + 7) last)

dates_from-IsRanked :
    (granularity : Granularity) (fuel current last : ℕ)
    → IsRanked ltb (dates_from fuel (step granularity) current last)
dates_from-IsRanked granularity zero current last = tt
dates_from-IsRanked granularity (suc fuel) current last = elim (Bool-cases (leb current last)) [
  | inl h ↦ rw h (
    later_than granularity fuel current (current + step granularity) last (step_on granularity),
    dates_from-IsRanked granularity fuel (current + step granularity) last,
  )
  | inr h ↦ rw h tt
]
  where
    step_on : (g : Granularity) → current < current + step g
    step_on day = omega arith
    step_on week = omega arith

module _ (starts : List ℕ) (start end : Option ℕ) (granularity : Granularity) where
  abbrev pub first_bound : Option ℕ
  first_bound = bound granularity start (head? (stable_sort ltb starts))

  abbrev pub last_bound : Option ℕ
  last_bound = bound granularity end (or_first (last? (stable_sort ltb starts)) first_bound)

  pub fill_periods_ok :
      (first last : ℕ)
      → first_bound ≡ some first
      → last_bound ≡ some last
      → overflows granularity first last ≡ false
      → (dates : List ℕ) × (fill_periods starts start end granularity ≡ some dates)
        × ((date : ℕ) → any (λ p. p == date) dates ≡ is_period granularity first last date)
        × IsRanked ltb dates
  unfolding fill_periods
  fill_periods_ok first last f l fine =
      let fuel = suc (last - first) in
      (
        dates_from fuel (step granularity) first last,
        rw (l, f) (periods_from_lem granularity fuel first last (omega arith) ∙ rw fine refl),
        λ date. any-dates_from granularity fuel first last date (omega arith),
        dates_from-IsRanked granularity fuel first last,
      )

  -- Between a first and a last bound the loop ends by itself, with an OverflowError just where the step
  -- from the last date of the series passes 9999-12-31; else the series has just the dates that are a
  -- whole number of steps from the first, up to the last, in ascending order. Without a first bound it
  -- is empty.
  pub fill_periods_lem :
      ((first last : ℕ)
        → first_bound ≡ some first
        → last_bound ≡ some last
        → ((fill_periods starts start end granularity ≡ none)
            ↔ (overflows granularity first last ≡ true))
          × ((dates : List ℕ)
              → fill_periods starts start end granularity ≡ some dates
              → ((date : ℕ) → any (λ p. p == date) dates ≡ is_period granularity first last date)
                × IsRanked ltb dates))
      × (first_bound ≡ none → fill_periods starts start end granularity ≡ some [])
  unfolding fill_periods
  fill_periods_lem = (
    λ first last f l.
        let fuel = suc (last - first) in
        let all_of = periods_from_lem granularity fuel first last (omega arith) in
        elim (Bool-cases (overflows granularity first last)) [
          | inl over ↦
              let raised : fill_periods starts start end granularity ≡ none =
                rw (l, f) (all_of ∙ rw over refl) in
              ((λ _. over, λ _. raised), λ dates h. cc (raised, h))
          | inr fine ↦
              let (own, listed, each, ranked) = fill_periods_ok first last f l fine in
              (
                (λ h. cc (listed, h), λ h. cc (fine, h)),
                λ dates h.
                    subst
                      (λ ds.
                        ((date : ℕ)
                          → any (λ p. p == date) ds ≡ is_period granularity first last date)
                        × IsRanked ltb ds)
                      (some-injective _ _ (sym listed ∙ h)) (each, ranked),
              )
        ],
    λ f. rw f refl,
  )
