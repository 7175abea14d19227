-- ===== src/Simulation.antt =====
-- The simulated list of underwritings
-- (app/iron_bank/services/operations/simulate_underwritings_service.py): the rows, what is read of them,
-- and the recalculation of one row.
pub mod Listing
pub mod Order
pub mod Pages
pub mod Flags
pub mod Requests
pub mod SameFigures
use adus_be.Prelude.{
  ℕ, Bool, true, false, Option, none, some, List, [], ◌∷◌, String, Result, ok, err, ◌>>=◌, insert,
  if◌then◌else◌,
}
use adus_be.Calculator.{
  Failure, value_error, key_error, type_error, validation_error, arithmetic_error, Decimals,
  Scenarios, PurchaseDetails, ForecastedRevenue, OptimizationItem, OperatingExpense, Dict, figure,
  Validation, or_nought, calculate_purchase_details, calculate_cash_on_cash, calculate_budget_to_pp,
}
use adus_be.Calculator.Loans.{calculate_total_oop}
use adus_be.Calculator.Forecast.{calculate_forecasted_revenue, calculate_y1_coc_incl_tax_savings}

-- `except (ValueError, KeyError, TypeError, ValidationError)`
abbrev pub is_caught : Failure → Bool
is_caught (value_error message) = true
is_caught key_error = true
is_caught type_error = true
is_caught validation_error = true
is_caught arithmetic_error = false

module _ (D : Type 0) where
  -- `get_simulation_inputs` returns these columns and the two sums; instants are numbers here
  pub record SimulationInput : Type 0 where
    pub id : ℕ
    pub purchase_price : Option D
    pub total_oop : Option D
    pub l_cash_on_cash : Option D
    pub m_cash_on_cash : Option D
    pub h_cash_on_cash : Option D
    pub budget_to_pp : Option D
    pub purchase_details : Option (Dict D)
    pub forecasted_revenue : Option (Dict D)
    pub opex_project_loan : Option (Dict D)
    pub optimization_total : Option D
    pub operating_expense_total : Option D
    pub tax_savings : Option D
    pub prr : Option D
    pub sheet_number : Option ℕ
    pub created_at : Option ℕ
    pub deal_approved : Option ℕ

  pub record SimulatedRow : Type 0 where
    pub id : ℕ
    pub simulated : Bool
    pub purchase_price : Option D
    pub total_oop : Option D
    pub l_cash_on_cash : Option D
    pub m_cash_on_cash : Option D
    pub h_cash_on_cash : Option D
    pub budget_to_pp : Option D
    pub purchase_details : Option (PurchaseDetails D)
    pub forecasted_revenue : Option (ForecastedRevenue D)
    pub y1_coc_incl_tax_savings : Option (Scenarios D)
    pub prr : Option D
    pub sheet_number : Option ℕ
    pub created_at : Option ℕ
    pub deal_approved : Option ℕ

module _ {D : Type 0} where
  -- the stored figures, under the mark that they are not recalculated
  unfoldable pub fallback : SimulationInput D → SimulatedRow D
  fallback row = record {
    id = row.id;
    simulated = false;
    purchase_price = row.purchase_price;
    total_oop = row.total_oop;
    l_cash_on_cash = row.l_cash_on_cash;
    m_cash_on_cash = row.m_cash_on_cash;
    h_cash_on_cash = row.h_cash_on_cash;
    budget_to_pp = row.budget_to_pp;
    purchase_details = none;
    forecasted_revenue = none;
    y1_coc_incl_tax_savings = none;
    prr = row.prr;
    sheet_number = row.sheet_number;
    created_at = row.created_at;
    deal_approved = row.deal_approved;
  }

  -- `if override is not None: merged[key] = override`
  abbrev pub override : String → Option D → Dict D → Dict D
  override key none stored = stored
  override key (some value) stored = insert key (figure value) stored

  abbrev pub synthetic_item : D → OptimizationItem D
  synthetic_item total_price = record {
    id = none;
    category = none;
    total_price = some total_price;
    metric = none;
    base_price = none;
    spec = none;
    tier = none;
    notes = none;
  }

  abbrev pub synthetic_expense : D → OperatingExpense D
  synthetic_expense monthly_amount = record {
    id = none;
    expense_name = none;
    monthly_amount = some monthly_amount;
  }

  -- the five figures that are filtered on, and the dicts they come from
  abbrev pub simulated_row :
      SimulationInput D
      → PurchaseDetails D
      → ForecastedRevenue D
      → D
      → Scenarios D
      → D
      → Option (Scenarios D)
      → SimulatedRow D
  simulated_row row details forecasted total_oop cash_on_cash budget_to_pp y1 = record {
    id = row.id;
    simulated = true;
    purchase_price = row.purchase_price;
    total_oop = some total_oop;
    l_cash_on_cash = some cash_on_cash.low;
    m_cash_on_cash = some cash_on_cash.mid;
    h_cash_on_cash = some cash_on_cash.high;
    budget_to_pp = some budget_to_pp;
    purchase_details = some details;
    forecasted_revenue = some forecasted;
    y1_coc_incl_tax_savings = y1;
    prr = row.prr;
    sheet_number = row.sheet_number;
    created_at = row.created_at;
    deal_approved = row.deal_approved;
  }

module _ {D : Type 0} (num : Decimals D) (validate : Validation D) where
  module _ (row : SimulationInput D) where
    abbrev pub items_of : List (OptimizationItem D)
    items_of = synthetic_item (or_nought num row.optimization_total) ∷ []

    abbrev pub expenses_of : List (OperatingExpense D)
    expenses_of = synthetic_expense (or_nought num row.operating_expense_total) ∷ []

    abbrev pub y1_of :
        PurchaseDetails D → ForecastedRevenue D → Option D → Result Failure (Option (Scenarios D))
    y1_of details forecasted none = ok none
    y1_of details forecasted (some tax_savings) =
        calculate_y1_coc_incl_tax_savings num validate forecasted tax_savings details items_of
          row.opex_project_loan
        >>= λ rates. ok (some rates)

    unfoldable pub recalculate : Dict D → Dict D → Result Failure (SimulatedRow D)
    recalculate merged stored_forecast = validate.purchase_details merged >>= λ purchase.
        let details = calculate_purchase_details num purchase in
        validate.forecasted_revenue stored_forecast >>= λ input.
        calculate_forecasted_revenue num validate input details expenses_of items_of
          row.opex_project_loan
        >>= λ forecasted.
            calculate_total_oop num validate details items_of row.opex_project_loan >>= λ total_oop.
            calculate_cash_on_cash num forecasted total_oop >>= λ cash_on_cash.
            calculate_budget_to_pp num total_oop details.dumped.purchase_price >>= λ budget_to_pp.
            y1_of details forecasted row.tax_savings >>= λ y1.
            ok (simulated_row row details forecasted total_oop cash_on_cash budget_to_pp y1)

    module _ (interest_rate down_payment_pct : Option D) where
      -- None and `{}` are falsy
      abbrev pub from_stored : Option (Dict D) → Option (Dict D) → Result Failure (SimulatedRow D)
      from_stored (some (p ∷ purchase)) (some (f ∷ forecast)) =
          recalculate
            (override "down_payment_pct" down_payment_pct
              (override "interest_rate" interest_rate (p ∷ purchase)))
            (f ∷ forecast)
      from_stored _ _ =
          err (value_error "stored purchase_details and forecasted_revenue are required")

      unfoldable pub calculate_simulated_row : Result Failure (SimulatedRow D)
      calculate_simulated_row = from_stored row.purchase_details row.forecasted_revenue

      abbrev pub or_fallback : Result Failure (SimulatedRow D) → Result Failure (SimulatedRow D)
      or_fallback (ok calculated) = ok calculated
      or_fallback (err raised) = if is_caught raised then ok (fallback row) else err raised

      unfoldable pub simulate_row : Result Failure (SimulatedRow D)
      simulate_row = or_fallback calculate_simulated_row
