-- ===== src/Examples/Lists.antt =====
-- Reference data and analytics lists at concrete inputs.
use mathlib.Core.List.{Perm}
use adus_be.Prelude.{
  ℕ, ◌+◌, ◌≤◌, ◌<◌, ◌%◌, ◌≡◌, ◌↔◌, refl, true, false, Bool, Option, none, some, List, [], ◌∷◌,
  String, contains, ok, err, IsRanked, IsStrictOrder, arith, any, ltb, ◌==◌, text_before,
  text_before-IsStrictOrder, text_before_linear, stable_sort, place, if◌then◌else◌,
}
use adus_be.ReferenceData.{EnumOption, Scope, list_options}
use adus_be.ReferenceData.Service.{
  World, one_set, query_table, store, clear_caches, committed, list_shared_options, shared_table,
  validate_active_option,
}
use adus_be.ReferenceData.Filters.{IsTextOrder, is_offered, validate_active_option_lem}
use adus_be.ReferenceData.Freshness.{
  Instance, Steps, none_yet, then_step, tick, begin, commit, clear, finish, later,
  list_shared_options_lem,
}
use adus_be.Analytics.{
  BreakdownItem, SeriesPoint, day, week, period_start, order_fixed, order_open, fill_periods,
  fill_series,
}
use adus_be.Analytics.Tallies.{sum_of}
use adus_be.Analytics.Fixed.{order_fixed_total}
use adus_be.Analytics.Ranked.{shown_above, order_open_lem}
use adus_be.Analytics.Periods.{
  is_period, overflows, first_bound, last_bound, period_start_lem, fill_periods_lem,
}
use adus_be.Analytics.Series.{fill_series_total}

text_order : IsTextOrder text_before
text_order = record { strict = text_before-IsStrictOrder; linear = text_before_linear }

abbrev option : ℕ → String → String → Bool → EnumOption
option id set_code key is_active = record {
  id = id;
  domain = "iron_bank";
  set_code = set_code;
  key = key;
  label = key;
  sort_order = id;
  is_active = is_active;
  is_default = false;
  metadata_json = none;
  created_at = none;
  updated_at = none;
}

abbrev table : List EnumOption
table =
    option 1 "pool_type" "in_ground" true
    ∷ option 2 "market_type" "lake" true
    ∷ option 3 "pool_type" "none" false
    ∷ []

abbrev started : Instance
started = record {
  world = record { table = table; shared_cache = none; now = 100 };
  awaited = [];
  unsettled = none;
}

abbrev pools : Scope
pools = one_set none "pool_type"

-- A read awaits its query while an option is deleted and the cache cleared, and stores the rows of before.
abbrev reading : Instance
reading = record {
  world = started.world;
  awaited = (100, query_table text_before started.world) ∷ [];
  unsettled = none;
}

abbrev written : Instance
written = record {
  world = clear_caches (committed [] started.world);
  awaited = reading.awaited;
  unsettled = some 100;
}

abbrev restored : Instance
restored = record {
  world = store text_before (query_table text_before started.world) (later 2 written.world);
  awaited = [];
  unsettled = some 100;
}

abbrev settled : Instance
settled = record { world = later 303 restored.world; awaited = []; unsettled = some 100 }

served_path : Steps text_before 300 5 started settled
served_path = then_step to_stored (tick restored 303)
  where
    to_written : Steps text_before 300 5 started written
    to_written =
        then_step (then_step (then_step (none_yet started) (begin started)) (commit reading [])) (
          clear (record {
            world = committed [] started.world;
            awaited = reading.awaited;
            unsettled = some 100;
          }))

    to_stored : Steps text_before 300 5 started restored
    to_stored = then_step (then_step to_written (tick written 2)) (
        finish (later 2 written.world) [] [] 100 (query_table text_before started.world) (some 100)
          (omega arith))

abbrev nothing_happens : World → World
nothing_happens w = w

-- two seconds later the deleted options are served, five minutes later they are not
served_stale :
    (list_shared_options text_before 300 pools [] nothing_happens restored.world).0
    ≡ list_options text_before pools table
unfolding list_shared_options shared_table list_options stable_sort place contains text_before
served_stale = refl

list_shared_options_lem_example :
    (list_shared_options text_before 300 pools [] nothing_happens settled.world).0
    ≡ list_options text_before pools []
list_shared_options_lem_example =
    list_shared_options_lem text_before 300 5 text_order (omega arith) started settled refl refl
      served_path (omega arith) pools [] nothing_happens

validate_active_option_lem_example :
    (validate_active_option text_before none "pool_type" (some "none") [] table).0
    ≡ (if any (is_offered none "pool_type" "none") table then ok tt else err ("pool_type", "none"))
validate_active_option_lem_example =
    validate_active_option_lem text_before none "pool_type" "none" table

abbrev tallied : List (Option String × ℕ)
tallied = (some "sold", 3) ∷ (none, 2) ∷ (some "other", 1) ∷ []

abbrev categories : List (String × String)
categories = ("open", "Open") ∷ ("sold", "Sold") ∷ []

abbrev shown : List BreakdownItem
shown =
    record { key = some "open"; label = "Open"; count = 0 }
    ∷ record { key = some "sold"; label = "Sold"; count = 3 }
    ∷ record { key = some "other"; label = "other"; count = 1 }
    ∷ record { key = none; label = "Unknown"; count = 2 }
    ∷ []

fixed_items : order_fixed tallied categories "Unknown" ≡ shown
unfolding order_fixed stable_sort place contains text_before
fixed_items = refl

order_fixed_total_example :
    sum_of (λ i. BreakdownItem.count i) (order_fixed tallied categories "Unknown") ≡ 6
order_fixed_total_example =
    order_fixed_total tallied categories "Unknown" (refl, (refl, tt)) (refl, (refl, (refl, tt)))

order_open_lem_example : IsRanked shown_above (order_open shown) × Perm (order_open shown) shown
order_open_lem_example = order_open_lem shown

abbrev slug_of : BreakdownItem → Option String
slug_of i = i.key

abbrev name_of : BreakdownItem → String
name_of i = i.label

abbrev number_of : BreakdownItem → ℕ
number_of i = i.count

ltb_order : IsStrictOrder ltb
ltb_order = record { asym = λ a b h. ground arith; not_trans = λ a b c h k. ground arith }

period_start_lem_example :
    (739901 ≤ 739902)
    × (739902 < 739901 + 7)
    × (period_start 739901 week ≡ 739901)
    × (week ≡ week → (739901 + 6) % 7 ≡ 0)
period_start_lem_example = period_start_lem week 739902 (omega arith)

abbrev starts : List ℕ
starts = 8 ∷ 22 ∷ []

fill_periods_lem_example :
    ((first last : ℕ)
      → first_bound starts none (some 30) week ≡ some first
      → last_bound starts none (some 30) week ≡ some last
      → ((fill_periods starts none (some 30) week ≡ none) ↔ (overflows week first last ≡ true))
        × ((dates : List ℕ)
            → fill_periods starts none (some 30) week ≡ some dates
            → ((date : ℕ) → any (λ p. p == date) dates ≡ is_period week first last date)
              × IsRanked ltb dates))
    × (first_bound starts none (some 30) week ≡ none
        → fill_periods starts none (some 30) week ≡ some [])
fill_periods_lem_example = fill_periods_lem starts none (some 30) week

fill_series_total_example :
    (points : List SeriesPoint) × (fill_series ((22, 4) ∷ (8, 5) ∷ []) none (some 30) week
      ≡ some points)
    × (sum_of (λ p. SeriesPoint.count p) points ≡ 9)
unfolding stable_sort place
fill_series_total_example =
    fill_series_total ((22, 4) ∷ (8, 5) ∷ []) none (some 30) week 8 29 (refl, (refl, tt)) refl refl
      refl

-- a query that ends on 9999-12-31
last_day : fill_periods [] (some 3652058) (some 3652059) day ≡ none
unfolding fill_periods stable_sort
last_day = refl
