-- ===== src/Examples/Paged.antt =====
-- The order and the pages of the simulated list at concrete inputs.
use mathlib.Core.List.{Perm}
use adus_be.Prelude.{
  ℕ, ◌≤◌, ◌≡◌, refl, true, Option, none, some, List, [], ◌∷◌, map, length, filter, any, IsRanked,
  arith, stable_sort, place,
}
use adus_be.Simulation.{SimulatedRow}
use adus_be.Simulation.Listing.{
  by_total_oop, desc, asc, has_id, sort, page_count, page_rows, overlay_page,
}
use adus_be.Simulation.Order.{stands_above, sort_lem}
use adus_be.Simulation.Pages.{first_pages, first_pages-page_count}
use adus_be.Simulation.Requests.{overlay_page-ids, ids_of}
use adus_be.Examples.Simulated.{encoder, hydrated}
use adus_be.Examples.Figures.{fixed, fixed_order}

abbrev row_of : ℕ → Option ℕ → SimulatedRow ℕ
row_of id total_oop = record {
  id = id;
  simulated = true;
  purchase_price = none;
  total_oop = total_oop;
  l_cash_on_cash = none;
  m_cash_on_cash = none;
  h_cash_on_cash = none;
  budget_to_pp = none;
  purchase_details = none;
  forecasted_revenue = none;
  y1_coc_incl_tax_savings = none;
  prr = none;
  sheet_number = none;
  created_at = none;
  deal_approved = none;
}

abbrev rows : List (SimulatedRow ℕ)
rows = row_of 1 (some 20) ∷ row_of 2 none ∷ row_of 3 (some 20) ∷ row_of 4 (some 30) ∷ []

sorted_ids :
    (map (λ r. SimulatedRow.id r) (sort fixed by_total_oop desc rows) ≡ 4 ∷ 3 ∷ 1 ∷ 2 ∷ [])
    × (map (λ r. SimulatedRow.id r) (sort fixed by_total_oop asc rows) ≡ 3 ∷ 1 ∷ 4 ∷ 2 ∷ [])
unfolding sort stable_sort place
sorted_ids = (refl, refl)

sort_lem_example :
    IsRanked (stands_above fixed by_total_oop desc) (sort fixed by_total_oop desc rows)
    × Perm (sort fixed by_total_oop desc rows) rows
sort_lem_example = sort_lem fixed fixed_order by_total_oop desc rows

first_pages-page_count_example :
    (first_pages (page_count 4 3) 3 rows ≡ rows)
    × ((page : ℕ) → length (page_rows page 3 rows) ≤ 3)
    × ((page : ℕ) → 1 ≤ page → page ≤ page_count 4 3 → 1 ≤ length (page_rows page 3 rows))
first_pages-page_count_example = first_pages-page_count 3 rows (omega arith)

overlay_page-ids_example :
    ids_of encoder (overlay_page encoder (hydrated 3 ∷ hydrated 1 ∷ []) rows)
    ≡ filter
        (λ n. any (has_id n) (hydrated 3 ∷ hydrated 1 ∷ []))
        (map (λ row. SimulatedRow.id row) rows)
overlay_page-ids_example = overlay_page-ids encoder (hydrated 3 ∷ hydrated 1 ∷ []) rows
