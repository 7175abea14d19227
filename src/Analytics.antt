-- ===== src/Analytics.antt =====
-- The order of analytics lists (app/core/analytics/ordering.py). A date is its proleptic ordinal, so that
-- `timedelta(days=n)` is n and the weekday of d is (d + 6) % 7, with Monday as 0.
pub mod Tallies
pub mod Fixed
pub mod Ranked
pub mod Periods
pub mod Series
use mathlib.Core.Option
use adus_be.Prelude.{
  ℕ, zero, suc, ◌+◌, ◌-◌, ◌%◌, Bool, true, false, ◌||◌, ◌&&◌, not, Option, none, some, is_some,
  List, [], ◌∷◌, ◌++◌, map, String, str_eq, contains, ltb, leb, ◌==◌, filter, head?, or_else,
  if◌then◌else◌, stable_sort, text_before,
}

pub record BreakdownItem : Type 0 where
  pub key : Option String
  pub label : String
  pub count : ℕ

pub record SeriesPoint : Type 0 where
  pub period_start : ℕ
  pub count : ℕ

pub data Granularity : Type 0 where
  day week : Granularity

-- `<` on tuples: the second component counts where the first ones are equal
abbrev pub lex {ℓ} : {A : Type ℓ} → (A → A → Bool) → (A → A → Bool) → A → A → Bool
lex first second a b = first a b || (not (first b a) && second a b)

-- False before True, and a key of None as `key or ""`
abbrev pub unset_last : Option String → Option String → Bool
unset_last (some a) none = true
unset_last _ _ = false

abbrev pub key_before : Option String → Option String → Bool
key_before a b = text_before (or_else a "") (or_else b "")

-- `counts.get(key, 0)`
abbrev pub count_of {ℓ} : {K : Type ℓ} → (K → K → Bool) → K → List (K × ℕ) → ℕ
count_of same key [] = 0
count_of same key ((k, n) ∷ counts) = if same k key then n else count_of same key counts

abbrev pub same_slug : Option String → Option String → Bool
same_slug none none = true
same_slug (some a) (some b) = str_eq a b
same_slug _ _ = false

-- the entries that the caller does not know, by key
abbrev pub is_unknown : List (String × String) → Option String × ℕ → Bool
is_unknown known (none, n) = false
is_unknown known (some key, n) = not (contains key (map (λ k. k.0) known))

abbrev pub key_item : Option String × ℕ → BreakdownItem
key_item (key, n) = record { key = key; label = or_else key ""; count = n }

abbrev pub unset_item : String → ℕ → List BreakdownItem
unset_item label zero = []
unset_item label (suc n) = record { key = none; label = label; count = suc n } ∷ []

unfoldable pub order_fixed :
    List (Option String × ℕ) → List (String × String) → String → List BreakdownItem
order_fixed counts known unknown_label =
    map
      (λ k. record {
        key = some (k.0);
        label = k.1;
        count = count_of same_slug (some (k.0)) counts;
      })
      known
    ++ (map key_item (
          filter (is_unknown known)
            (stable_sort (λ a b. key_before a.0 b.0) (filter (λ c. is_some c.0) counts)))
        ++ unset_item unknown_label (count_of same_slug none counts))

-- the key of `order_open`'s sort
abbrev pub open_before : BreakdownItem → BreakdownItem → Bool
open_before =
    lex (λ a b. unset_last a.key b.key)
      (lex (λ a b. ltb b.count a.count) (λ a b. key_before a.key b.key))

unfoldable pub order_open : List BreakdownItem → List BreakdownItem
order_open = stable_sort open_before

-- A row of a table per group; `metric` is `getattr(row, by) or 0` and `less` its order.
module _ {R M : Type 0} (less : M → M → Bool) (key : R → Option String) (label : R → String)
    (metric : R → M) where
  abbrev pub ranked_before : R → R → Bool
  ranked_before =
      lex (λ a b. unset_last (key a) (key b))
        (lex (λ a b. less (metric b) (metric a))
          (lex (λ a b. text_before (label a) (label b)) (λ a b. key_before (key a) (key b))))

  unfoldable pub order_ranked : List R → List R
  order_ranked = stable_sort ranked_before

abbrev pub period_start : ℕ → Granularity → ℕ
period_start date day = date
period_start date week = date - (date + 6) % 7

abbrev pub step : Granularity → ℕ
step day = 1
step week = 7

-- the ordinal of `date.max`, 9999-12-31
abbrev pub date_max : ℕ
date_max = 3652059

-- The `while`, with fuel; none is the OverflowError that `current += step` raises past `date_max`.
abbrev pub periods_from : ℕ → ℕ → ℕ → ℕ → Option (List ℕ)
periods_from zero step current last = some []
periods_from (suc fuel) step current last =
    let rest = periods_from fuel step (current + step) last in
    if leb current last
    then (if ltb date_max (current + step)
        then none
        else Option.map (λ dates. current ∷ dates) rest)
    else some []

abbrev pub last? {ℓ} : {A : Type ℓ} → List A → Option A
last? [] = none
last? (x ∷ []) = some x
last? (x ∷ y ∷ xs) = last? (y ∷ xs)

abbrev pub or_first {ℓ} : {A : Type ℓ} → Option A → Option A → Option A
or_first none other = other
or_first (some a) other = some a

-- the bound that is asked for, else the one that the data gives
abbrev pub bound : Granularity → Option ℕ → Option ℕ → Option ℕ
bound granularity none found = found
bound granularity (some date) found = some (period_start date granularity)

abbrev pub periods_between : Granularity → Option ℕ → Option ℕ → Option (List ℕ)
periods_between granularity (some first) (some last) =
    periods_from (suc (last - first)) (step granularity) first last
periods_between granularity _ _ = some []

unfoldable pub fill_periods : List ℕ → Option ℕ → Option ℕ → Granularity → Option (List ℕ)
fill_periods starts start end granularity =
    let sorted = stable_sort ltb starts in
    let first = bound granularity start (head? sorted) in
    let last = bound granularity end (or_first (last? sorted) first) in
    periods_between granularity first last

abbrev pub point : List (ℕ × ℕ) → ℕ → SeriesPoint
point counts period = record { period_start = period; count = count_of ◌==◌ period counts }

unfoldable pub fill_series :
    List (ℕ × ℕ) → Option ℕ → Option ℕ → Granularity → Option (List SeriesPoint)
fill_series counts start end granularity =
    Option.map (map (point counts)) (fill_periods (map (λ c. c.0) counts) start end granularity)
