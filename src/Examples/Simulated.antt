-- ===== src/Examples/Simulated.antt =====
-- The calculator, saving and the simulated list at concrete inputs.
use adus_be.Prelude.{
  ℕ, ◌*◌, ◌≡◌, refl, inl, none, some, List, [], ◌∷◌, String, Result, ok, err, any, ◌==◌,
  if◌then◌else◌,
}
use adus_be.Calculator.{
  PurchaseDetails, ForecastedRevenue, OptimizationItem, OperatingExpense, figure, total,
  calculate_purchase_details, calculate_cash_on_cash, calculate_prr, calculate_budget_to_pp,
}
use adus_be.Calculator.Loans.{
  pmt, ending_balance, calculate_debt_service_annual, calculate_year_one_principal_pay_down,
  project_loan_amount, calculate_total_oop,
}
use adus_be.Calculator.Forecast.{basis, scenario_forecast, calculate_forecasted_revenue}
use adus_be.Saving.Fields.{Headline, headline}
use adus_be.Simulation.{SimulationInput, SimulatedRow, simulate_row}
use adus_be.Simulation.Listing.{Query, Bounds, by_id, desc, Hydrated, Encoder}
use adus_be.Simulation.SameFigures.{Saved, IsStored, Calculated, Shows, simulate_row-saved}
use adus_be.Examples.Figures.{
  unit, fixed, purchase, forecast_terms, validation, item, expense, stored_terms,
}

abbrev pub details : PurchaseDetails ℕ
details = calculate_purchase_details fixed purchase

abbrev pub items : List (OptimizationItem ℕ)
items = item 20 ∷ item 30 ∷ []

abbrev pub expenses : List (OperatingExpense ℕ)
expenses = expense 10 ∷ expense 5 ∷ []

total_oop_280 : calculate_total_oop fixed validation details items none ≡ ok (280 * unit)
unfolding calculate_total_oop project_loan_amount total calculate_purchase_details
total_oop_280 = refl

-- a row with the two stored dicts and the sums of the collections
abbrev stored_row : SimulationInput ℕ
stored_row = record {
  id = 7;
  purchase_price = some (1000 * unit);
  total_oop = some (280 * unit);
  l_cash_on_cash = none;
  m_cash_on_cash = none;
  h_cash_on_cash = none;
  budget_to_pp = none;
  purchase_details = some stored_terms;
  forecasted_revenue = some stored_terms;
  opex_project_loan = none;
  optimization_total = some (50 * unit);
  operating_expense_total = some (15 * unit);
  tax_savings = none;
  prr = none;
  sheet_number = none;
  created_at = some 5;
  deal_approved = none;
}

abbrev saved : Saved fixed validation
saved = record {
  purchase = purchase;
  input = forecast_terms;
  expenses = expenses;
  items = items;
  loan = none;
  tax_savings = none;
}

stored_row-IsStored : IsStored fixed validation saved stored_row
unfolding total project_loan_amount
stored_row-IsStored = record {
  purchase_key = ("purchase_price", figure (1000 * unit));
  purchase_rest = [];
  purchase_eq = refl;
  purchase_valid = refl;
  forecast_key = ("purchase_price", figure (1000 * unit));
  forecast_rest = [];
  forecast_eq = refl;
  forecast_valid = refl;
  totals = record { expenses = refl; items = refl; loans = refl };
  tax_eq = refl;
}

pub saved_forecast :
    (f : ForecastedRevenue ℕ) × (calculate_forecasted_revenue fixed validation forecast_terms
        details expenses items none
      ≡ ok f)
    × (h : Headline ℕ) × (headline fixed validation items none details f ≡ ok h)
unfolding calculate_forecasted_revenue basis scenario_forecast calculate_total_oop
    project_loan_amount total calculate_purchase_details pmt ending_balance
    calculate_debt_service_annual calculate_year_one_principal_pay_down headline
    calculate_cash_on_cash calculate_prr calculate_budget_to_pp
saved_forecast = (_, refl, _, refl)

saved-Calculated : Calculated fixed validation saved
saved-Calculated = record {
  forecasted = saved_forecast.0;
  forecasted_eq = saved_forecast.1;
  figures = saved_forecast.2;
  figures_eq = saved_forecast.3;
  year_one = inl refl;
}

simulate_row-saved_example :
    (r : SimulatedRow ℕ) × (simulate_row fixed validation stored_row none none ≡ ok r)
    × Shows fixed validation r (saved-Calculated).figures
simulate_row-saved_example =
    simulate_row-saved fixed validation saved stored_row stored_row-IsStored saved-Calculated

-- a row with no forecast
abbrev bare_row : SimulationInput ℕ
bare_row = record {
  id = 8;
  purchase_price = some (900 * unit);
  total_oop = none;
  l_cash_on_cash = none;
  m_cash_on_cash = none;
  h_cash_on_cash = none;
  budget_to_pp = none;
  purchase_details = some stored_terms;
  forecasted_revenue = none;
  opex_project_loan = none;
  optimization_total = none;
  operating_expense_total = none;
  tax_savings = none;
  prr = none;
  sheet_number = none;
  created_at = some 6;
  deal_approved = none;
}

abbrev open_bounds : Bounds ℕ
open_bounds = record { minimum = none; maximum = none }

abbrev everything : Query ℕ
everything = record {
  page = 1;
  page_size = 10;
  total_oop = open_bounds;
  budget_to_pp = open_bounds;
  l_cash_on_cash = open_bounds;
  m_cash_on_cash = open_bounds;
  h_cash_on_cash = open_bounds;
  sort_by = by_id;
  sort_order = desc;
  interest_rate = none;
  down_payment_pct = none;
}

abbrev pub encoder : Encoder ℕ ℕ
encoder = record { purchase = λ p. 1; revenue = λ f. 2; rates = λ r. 3 }

abbrev pub hydrated : ℕ → Hydrated ℕ ℕ String
hydrated id = record {
  id = id;
  simulated = none;
  total_oop = none;
  budget_to_pp = none;
  l_cash_on_cash = none;
  m_cash_on_cash = none;
  h_cash_on_cash = none;
  purchase_details = none;
  forecasted_revenue = none;
  y1_coc_incl_tax_savings = none;
  rest = "";
}

-- a loading that refuses the row 8
abbrev load : List ℕ → Result String (List (Hydrated ℕ ℕ String))
load ids = if any (λ n. n == 8) ids then err "ValidationError" else ok (hydrated 7 ∷ [])
