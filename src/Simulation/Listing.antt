-- ===== src/Simulation/Listing.antt =====
-- Filtering, sorting, paging and overlaying the simulated rows
-- (app/iron_bank/services/operations/simulate_underwritings_service.py).
use adus_be.Prelude.{
  ℕ, ◌+◌, ◌-◌, ◌*◌, ◌/◌, Bool, true, false, ◌&&◌, ◌||◌, not, Option, none, some, List, [], ◌∷◌,
  Result, ok, err, ◌>>=◌, ◌⊎◌, inl, inr, map, if◌then◌else◌, ltb, ◌==◌, length, filter, find, slice,
  traverse, stable_sort,
}
use mathlib.Core.Option
use adus_be.Calculator.{
  Failure, Decimals, Scenarios, PurchaseDetails, ForecastedRevenue, Validation,
}
use adus_be.Simulation.{SimulationInput, SimulatedRow, simulate_row}

pub data SortOrder : Type 0 where
  asc desc : SortOrder

pub data SortBy : Type 0 where
  by_id by_purchase_price by_total_oop by_l_cash_on_cash by_m_cash_on_cash by_h_cash_on_cash :
      SortBy
  by_prr by_budget_to_pp by_sheet_number by_created_at by_deal_approved : SortBy

-- what a column holds: a Decimal, or an integer or an instant
pub data SortKey (D : Type 0) : Type 0 where
  amount : D → SortKey D
  count : ℕ → SortKey D

pub record Bounds (D : Type 0) : Type 0 where
  pub minimum : Option D
  pub maximum : Option D

pub record Query (D : Type 0) : Type 0 where
  pub page : ℕ
  pub page_size : ℕ
  pub total_oop : Bounds D
  pub budget_to_pp : Bounds D
  pub l_cash_on_cash : Bounds D
  pub m_cash_on_cash : Bounds D
  pub h_cash_on_cash : Bounds D
  pub sort_by : SortBy
  pub sort_order : SortOrder
  pub interest_rate : Option D
  pub down_payment_pct : Option D

-- The part of `GetUnderwritingResult` that the overlay writes, and the rest of it as one value.
pub record Hydrated (D E R : Type 0) : Type 0 where
  pub id : ℕ
  pub simulated : Option Bool
  pub total_oop : Option D
  pub budget_to_pp : Option D
  pub l_cash_on_cash : Option D
  pub m_cash_on_cash : Option D
  pub h_cash_on_cash : Option D
  pub purchase_details : Option E
  pub forecasted_revenue : Option E
  pub y1_coc_incl_tax_savings : Option E
  pub rest : R

pub record Listed (D E R : Type 0) : Type 0 where
  pub results : List (Hydrated D E R)
  pub total : ℕ
  pub page : ℕ
  pub page_size : ℕ
  pub pages : ℕ

module _ {D : Type 0} where
  abbrev pub amounts : Option D → Option (SortKey D)
  amounts none = none
  amounts (some x) = some (amount x)

  abbrev pub counts : Option ℕ → Option (SortKey D)
  counts none = none
  counts (some n) = some (count n)

  -- `getattr(row, sort_by.value)`
  abbrev pub sort_value : SortBy → SimulatedRow D → Option (SortKey D)
  sort_value by_id row = some (count row.id)
  sort_value by_purchase_price row = amounts row.purchase_price
  sort_value by_total_oop row = amounts row.total_oop
  sort_value by_l_cash_on_cash row = amounts row.l_cash_on_cash
  sort_value by_m_cash_on_cash row = amounts row.m_cash_on_cash
  sort_value by_h_cash_on_cash row = amounts row.h_cash_on_cash
  sort_value by_prr row = amounts row.prr
  sort_value by_budget_to_pp row = amounts row.budget_to_pp
  sort_value by_sheet_number row = counts row.sheet_number
  sort_value by_created_at row = counts row.created_at
  sort_value by_deal_approved row = counts row.deal_approved

  -- `rows.sort(key=lambda row: -row.id)`: before the other is the greater id
  abbrev pub newer : SimulatedRow D → SimulatedRow D → Bool
  newer a b = ltb b.id a.id

module _ {D : Type 0} (num : Decimals D) where
  open num use {less}

  abbrev pub at_least : Option D → D → Bool
  at_least none minimum = false
  at_least (some value) minimum = not (less value minimum)

  abbrev pub at_most : Option D → D → Bool
  at_most none maximum = false
  at_most (some value) maximum = not (less maximum value)

  -- None fails any bound
  unfoldable pub passes_bounds : Option D → Bounds D → Bool
  passes_bounds value bounds = above bounds.minimum && below bounds.maximum
    where
      above : Option D → Bool
      above none = true
      above (some minimum) = at_least value minimum

      below : Option D → Bool
      below none = true
      below (some maximum) = at_most value maximum

  unfoldable pub passes : Query D → SimulatedRow D → Bool
  passes q row =
      passes_bounds row.total_oop q.total_oop
      && passes_bounds row.budget_to_pp q.budget_to_pp
      && passes_bounds row.l_cash_on_cash q.l_cash_on_cash
      && passes_bounds row.m_cash_on_cash q.m_cash_on_cash
      && passes_bounds row.h_cash_on_cash q.h_cash_on_cash

  -- one column holds values of one type
  abbrev pub key_less : SortKey D → SortKey D → Bool
  key_less (amount x) (amount y) = less x y
  key_less (count m) (count n) = ltb m n
  key_less (amount x) (count n) = true
  key_less (count m) (amount y) = false

  -- The pairs that `key` builds: `(rank, value)`, or `(rank, 0)` for None.
  abbrev pub rank : Bool → Option (SortKey D) → ℕ
  rank descending none = if descending then 0 else 1
  rank descending (some value) = if descending then 1 else 0

  abbrev pub value_less : Option (SortKey D) → Option (SortKey D) → Bool
  value_less (some a) (some b) = key_less a b
  value_less _ _ = false

  -- `<` on these pairs
  abbrev pub pair_less : Bool → Option (SortKey D) → Option (SortKey D) → Bool
  pair_less descending a b =
      ltb (rank descending a) (rank descending b)
      || ((rank descending a == rank descending b) && value_less a b)

  abbrev pub is_desc : SortOrder → Bool
  is_desc asc = false
  is_desc desc = true

  -- `reverse=descending` turns the order round and leaves the sort stable
  abbrev pub precedes : SortBy → SortOrder → SimulatedRow D → SimulatedRow D → Bool
  precedes column asc a b = pair_less false (sort_value column a) (sort_value column b)
  precedes column desc a b = pair_less true (sort_value column b) (sort_value column a)

  unfoldable pub sort : SortBy → SortOrder → List (SimulatedRow D) → List (SimulatedRow D)
  sort sort_by sort_order rows = stable_sort (precedes sort_by sort_order) (stable_sort newer rows)

abbrev pub or_stored : {E : Type 0} → Option E → Option E → Option E
or_stored none stored = stored
or_stored (some rates) stored = some rates

-- `jsonable_encoder` of the three dicts that the calculator returns
pub record Encoder (D E : Type 0) : Type 0 where
  pub purchase : PurchaseDetails D → E
  pub revenue : ForecastedRevenue D → E
  pub rates : Scenarios D → E

abbrev pub has_id : {D E R : Type 0} → ℕ → Hydrated D E R → Bool
has_id n item = item.id == n

module _ {D E R : Type 0} (encoder : Encoder D E) where
  unfoldable pub overlay_simulated : Hydrated D E R → SimulatedRow D → Hydrated D E R
  overlay_simulated result row = if row.simulated then overlaid else marked
    where
      marked : Hydrated D E R
      marked = record {
        id = result.id;
        simulated = some row.simulated;
        total_oop = result.total_oop;
        budget_to_pp = result.budget_to_pp;
        l_cash_on_cash = result.l_cash_on_cash;
        m_cash_on_cash = result.m_cash_on_cash;
        h_cash_on_cash = result.h_cash_on_cash;
        purchase_details = result.purchase_details;
        forecasted_revenue = result.forecasted_revenue;
        y1_coc_incl_tax_savings = result.y1_coc_incl_tax_savings;
        rest = result.rest;
      }

      overlaid : Hydrated D E R
      overlaid = record {
        id = result.id;
        simulated = some row.simulated;
        total_oop = row.total_oop;
        budget_to_pp = row.budget_to_pp;
        l_cash_on_cash = row.l_cash_on_cash;
        m_cash_on_cash = row.m_cash_on_cash;
        h_cash_on_cash = row.h_cash_on_cash;
        purchase_details = Option.map encoder.purchase row.purchase_details;
        forecasted_revenue = Option.map encoder.revenue row.forecasted_revenue;
        y1_coc_incl_tax_savings =
            or_stored (Option.map encoder.rates row.y1_coc_incl_tax_savings)
              result.y1_coc_incl_tax_savings;
        rest = result.rest;
      }

  abbrev pub with_item :
      SimulatedRow D → Option (Hydrated D E R) → List (Hydrated D E R) → List (Hydrated D E R)
  with_item row none overlaid = overlaid
  with_item row (some item) overlaid = overlay_simulated item row ∷ overlaid

  -- The page's rows in their order, each with its item where the database still has one.
  unfoldable pub overlay_page :
      List (Hydrated D E R) → List (SimulatedRow D) → List (Hydrated D E R)
  overlay_page items [] = []
  overlay_page items (row ∷ rows) =
      with_item row (find (has_id row.id) items) (overlay_page items rows)

-- `math.ceil(total / page_size) if page_size > 0 else 0`
unfoldable pub page_count : ℕ → ℕ → ℕ
page_count total page_size = if 0 == page_size then 0 else (total + (page_size - 1)) / page_size

abbrev pub page_rows {ℓ} : {A : Type ℓ} → ℕ → ℕ → List A → List A
page_rows page page_size rows = slice ((page - 1) * page_size) (page * page_size) rows

module _ {D : Type 0} (num : Decimals D) where
  -- the ids of the page of what passes, sorted
  abbrev pub page_ids : Query D → List (SimulatedRow D) → List ℕ
  page_ids q rows =
      map (λ row. SimulatedRow.id row)
        (page_rows q.page q.page_size
          (sort num q.sort_by q.sort_order (filter (passes num q) rows)))

-- the exception among those of several steps
abbrev pub raised_as : {E F A : Type 0} → (E → F) → Result E A → Result F A
raised_as f (ok a) = ok a
raised_as f (err e) = err (f e)

module _ {D E R X : Type 0} (num : Decimals D) (validate : Validation D)
    (encoder : Encoder D E) where
  -- `load` gives what `get_by_ids` finds for the page, read, hydrated and enriched, in any order, or an
  -- exception of one of these steps.
  unfoldable pub get_all_simulated :
      List (SimulationInput D)
      → (List ℕ → Result X (List (Hydrated D E R)))
      → Query D
      → Result (Failure ⊎ X) (Listed D E R)
  get_all_simulated inputs load q =
      raised_as inl
        (traverse (λ row. simulate_row num validate row q.interest_rate q.down_payment_pct) inputs)
      >>= λ rows.
          let filtered = filter (passes num q) rows in
          let total = length filtered in
          let sorted = sort num q.sort_by q.sort_order filtered in
          raised_as inr (load (page_ids num q rows)) >>= λ items. ok (record {
            results = overlay_page encoder items (page_rows q.page q.page_size sorted);
            total = total;
            page = q.page;
            page_size = q.page_size;
            pages = page_count total q.page_size;
          })
