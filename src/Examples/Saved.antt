-- ===== src/Examples/Saved.antt =====
-- What saving writes, at concrete inputs.
use adus_be.Prelude.{ℕ, ◌≡◌, refl, none, some, [], String, lookup, ok, err, >>=-eq-ok}
use adus_be.Calculator.{
  value_error, Scenarios, ForecastedRevenueInput, ForecastedRevenue, Dict, total,
  calculate_purchase_details, calculate_cash_on_cash, calculate_prr, calculate_budget_to_pp,
}
use adus_be.Calculator.Loans.{
  pmt, ending_balance, calculate_debt_service_annual, calculate_year_one_principal_pay_down,
  project_loan_amount, calculate_total_oop,
}
use adus_be.Calculator.Forecast.{basis, scenario_forecast, calculate_forecasted_revenue}
use adus_be.Saving.{Payload, DetailsInput, DetailData, Readers}
use adus_be.Saving.Details.{build_detail_data, project_loan_for_calculation}
use adus_be.Saving.Fields.{apply_calculated_underwriting_fields, headline}
use adus_be.Saving.Guarded.{IsLeft, build_detail_data-apply}
use adus_be.Saving.Columns.{AreSaved, IsKept, apply_calculated_underwriting_fields_lem}
use adus_be.Examples.Simulated.{details, items, expenses, saved_forecast}
use adus_be.Examples.Figures.{
  fixed, fixed_contained, fixed_by_zero, purchase, scenario, forecast_terms, validation,
}

abbrev pub no_readers : Readers ℕ
no_readers = record {
  listings_service = none;
  cleaned_data_service = none;
  opex_service = none;
  to_money = λ x. x;
}

abbrev pub details_input : DetailsInput ℕ
details_input = record {
  purchase_details = some purchase;
  y1_coc_incl_tax_savings = none;
  forecasted_revenue = some forecast_terms;
  opex_project_loan = none;
  zillow_property = none;
  others = [];
}

abbrev pub payload : Payload ℕ
payload = record {
  market_id = none;
  zpid = none;
  bedrooms = none;
  bathrooms = none;
  purchase_price = none;
  columns = [];
  details = some details_input;
  taxes = none;
  optimization_list = items;
  operating_expenses = expenses;
}

abbrev built : DetailData ℕ
built = record {
  purchase_details = some details;
  y1_coc_incl_tax_savings = none;
  forecasted_revenue = some saved_forecast.0;
  opex_project_loan = none;
  zillow_property = none;
  others = [];
}

built_is :
    build_detail_data fixed validation no_readers payload none none none none ≡ ok (some built)
unfolding build_detail_data
built_is = rw (saved_forecast.1) refl

-- a middle scenario without revenue
abbrev zero_mid_terms : ForecastedRevenueInput ℕ
zero_mid_terms = record {
  co_hosting_fee_pct = 0;
  annual_re_appreciation_pct = 400;
  scenarios = record { low = scenario 0; mid = scenario 0; high = scenario 4000 };
  extra = [];
}

zero_mid_run :
    (f : ForecastedRevenue ℕ) × (calculate_forecasted_revenue fixed validation zero_mid_terms
        details expenses items none
      ≡ ok f)
    × (headline fixed validation items none details f
        ≡ err (value_error "mid gross revenue is required to calculate PRR"))
unfolding calculate_forecasted_revenue basis scenario_forecast calculate_total_oop
    project_loan_amount total calculate_purchase_details pmt ending_balance
    calculate_debt_service_annual calculate_year_one_principal_pay_down headline
    calculate_cash_on_cash calculate_prr
zero_mid_run = (_, refl, refl)

abbrev zero_mid_input : DetailsInput ℕ
zero_mid_input = record {
  purchase_details = some purchase;
  y1_coc_incl_tax_savings = none;
  forecasted_revenue = some zero_mid_terms;
  opex_project_loan = none;
  zillow_property = none;
  others = [];
}

abbrev zero_mid_payload : Payload ℕ
zero_mid_payload = record {
  market_id = none;
  zpid = none;
  bedrooms = none;
  bathrooms = none;
  purchase_price = none;
  columns = [];
  details = some zero_mid_input;
  taxes = none;
  optimization_list = items;
  operating_expenses = expenses;
}

abbrev zero_mid_built : DetailData ℕ
zero_mid_built = record {
  purchase_details = some details;
  y1_coc_incl_tax_savings = none;
  forecasted_revenue = some zero_mid_run.0;
  opex_project_loan = none;
  zillow_property = none;
  others = [];
}

zero_mid_is_built :
    build_detail_data fixed validation no_readers zero_mid_payload none none none none
    ≡ ok (some zero_mid_built)
unfolding build_detail_data
zero_mid_is_built = rw (zero_mid_run.1) refl

zero_mid_is_refused :
    apply_calculated_underwriting_fields fixed validation items
      (project_loan_for_calculation (some zero_mid_built) none)
      (some zero_mid_built)
      []
    ≡ err (value_error "mid gross revenue is required to calculate PRR")
unfolding apply_calculated_underwriting_fields project_loan_for_calculation
zero_mid_is_refused = rw (zero_mid_run.2) refl

build_detail_data-apply_example :
    IsLeft fixed (value_error "mid gross revenue is required to calculate PRR")
build_detail_data-apply_example =
    build_detail_data-apply fixed fixed_contained validation fixed_by_zero no_readers
      zero_mid_payload none none none none zero_mid_built zero_mid_is_built []
      (value_error "mid gross revenue is required to calculate PRR") zero_mid_is_refused

saved_figures :
    (t : ℕ) × (calculate_total_oop fixed validation details items none ≡ ok t)
    × (coc : Scenarios ℕ) × (calculate_cash_on_cash fixed saved_forecast.0 t ≡ ok coc)
    × (prr : ℕ) × (calculate_prr fixed details.dumped.purchase_price
          saved_forecast.0.scenarios.mid.dumped.forecasted_revenue
        ≡ ok prr)
    × (b : ℕ) × (calculate_budget_to_pp fixed t details.dumped.purchase_price ≡ ok b)
unfolding headline
saved_figures =
    let (t, h₁, rest₁) =
      >>=-eq-ok (calculate_total_oop fixed validation details items none) _ (saved_forecast.3) in
    let (coc, h₂, rest₂) = >>=-eq-ok (calculate_cash_on_cash fixed saved_forecast.0 t) _ rest₁ in
    let (prr, h₃, rest₃) =
      >>=-eq-ok
        (calculate_prr fixed details.dumped.purchase_price
          saved_forecast.0.scenarios.mid.dumped.forecasted_revenue)
        _ rest₂ in
    let (b, h₄, rest₄) =
      >>=-eq-ok (calculate_budget_to_pp fixed t details.dumped.purchase_price) _ rest₃ in
    (t, h₁, coc, h₂, prr, h₃, b, h₄)

apply_calculated_underwriting_fields_lem_example :
    (saved : Dict ℕ) × (apply_calculated_underwriting_fields fixed validation items none
        (some built)
        []
      ≡ ok saved)
    × AreSaved fixed validation items none details saved_forecast.0 saved_figures.0 saved_figures.4
        saved_figures.6 saved_figures.2 saved
    × ((asked : String) → IsKept asked → lookup asked saved ≡ lookup asked [])
apply_calculated_underwriting_fields_lem_example =
    apply_calculated_underwriting_fields_lem fixed validation items none built details
      saved_forecast.0 saved_figures.0 saved_figures.4 saved_figures.6 saved_figures.2 [] refl refl
      saved_figures.1 saved_figures.3 saved_figures.5 saved_figures.7
