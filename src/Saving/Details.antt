-- ===== src/Saving/Details.antt =====
-- `_build_detail_data` (app/iron_bank/services/operations/save_underwriting_service.py).
use adus_be.Prelude.{ℕ, Option, none, some, Result, ok, err, ◌>>=◌}
use mathlib.Core.Option
use adus_be.Calculator.{
  Failure, value_error, Decimals, PurchaseDetailsInput, PurchaseDetails, ForecastedRevenueInput,
  ForecastedRevenue, ProjectLoanInput, TaxData, Dict, Validation, calculate_purchase_details,
}
use adus_be.Calculator.Loans.{calculate_project_loan, project_loan_dict}
use adus_be.Calculator.Forecast.{calculate_forecasted_revenue, calculate_y1_coc_incl_tax_savings}
use adus_be.Saving.{
  Payload, DetailsInput, ZillowProperty, DetailData, YearOne, computed, sent, Readers,
  build_forecasted_revenue_input,
}

module _ {D : Type 0} where
  -- the loan of this payload, else the one already on the row
  abbrev pub first_loan : Option (Dict D) → Option (Dict D) → Option (Dict D)
  first_loan none stored = stored
  first_loan (some loan) stored = some loan

  unfoldable pub project_loan_for_calculation :
      Option (DetailData D) → Option (Dict D) → Option (Dict D)
  project_loan_for_calculation none stored = stored
  project_loan_for_calculation (some details) stored = first_loan details.opex_project_loan stored

module _ {D : Type 0} (num : Decimals D) (validate : Validation D) (readers : Readers D) where
  -- the project loan, calculated where one is sent
  abbrev pub sent_loan : Option (ProjectLoanInput D) → Result Failure (Option (Dict D))
  sent_loan none = ok none
  sent_loan (some input) =
      calculate_project_loan num input >>= λ loan. ok (some (project_loan_dict num loan))

  -- the forecast that is sent, else an estimate where there is a purchase to estimate for
  abbrev pub forecast_input :
      Option ℕ
      → Option ℕ
      → Option (PurchaseDetailsInput D)
      → Option (ForecastedRevenueInput D)
      → Result Failure (Option (ForecastedRevenueInput D))
  forecast_input market_id bedrooms purchase (some input) = ok (some input)
  forecast_input market_id bedrooms none none = ok none
  forecast_input market_id bedrooms (some purchase) none =
      build_forecasted_revenue_input num readers market_id bedrooms

  module _ (payload : Payload D) (project_loan : Option (Dict D)) where
    abbrev pub forecast :
        Option (PurchaseDetails D)
        → Option (ForecastedRevenueInput D)
        → Result Failure (Option (ForecastedRevenue D))
    forecast purchase none = ok none
    forecast none (some input) =
        err (value_error "purchase_details is required to calculate forecasted revenue")
    forecast (some details) (some input) =
        calculate_forecasted_revenue num validate input details payload.operating_expenses
          payload.optimization_list project_loan
        >>= λ forecasted. ok (some forecasted)

    -- overwrites a year-one return that is sent, where all that it takes is there
    abbrev pub year_one :
        Option (PurchaseDetails D)
        → Option (ForecastedRevenue D)
        → Option (TaxData D)
        → Option (YearOne D)
        → Result Failure (Option (YearOne D))
    year_one (some details) (some forecasted) (some taxes) as_sent =
        calculate_y1_coc_incl_tax_savings num validate forecasted taxes.tax_savings details
          payload.optimization_list project_loan
        >>= λ rates. ok (some (computed rates))
    year_one _ _ _ as_sent = ok as_sent

  module _ (payload : Payload D) (tax_data : Option (TaxData D)) (market_id bedrooms : Option ℕ)
      (stored_project_loan : Option (Dict D)) where
    abbrev pub details_of : Option (DetailsInput D) → Result Failure (Option (DetailData D))
    details_of none = ok none
    details_of (some details) =
        let purchase = Option.map (calculate_purchase_details num) details.purchase_details in
        sent_loan details.opex_project_loan >>= λ own_loan.
        let project_loan = first_loan own_loan stored_project_loan in
        forecast_input market_id bedrooms details.purchase_details details.forecasted_revenue
        >>= λ input. forecast payload project_loan purchase input >>= λ forecasted.
            year_one payload project_loan purchase forecasted tax_data
              (Option.map sent details.y1_coc_incl_tax_savings)
            >>= λ y1. ok (
                some (record {
                  purchase_details = purchase;
                  y1_coc_incl_tax_savings = y1;
                  forecasted_revenue = forecasted;
                  opex_project_loan = own_loan;
                  zillow_property =
                      Option.map (λ p. ZillowProperty.stored p) details.zillow_property;
                  others = details.others;
                }))

    unfoldable pub build_detail_data : Result Failure (Option (DetailData D))
    build_detail_data = details_of payload.details
