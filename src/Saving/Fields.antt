-- ===== src/Saving/Fields.antt =====
-- `_apply_calculated_underwriting_fields`
-- (app/iron_bank/services/operations/save_underwriting_service.py).
use adus_be.Prelude.{Option, none, some, Result, ok, ◌>>=◌, List, insert, String}
use adus_be.Calculator.{
  Failure, Decimals, Scenarios, PurchaseDetails, ForecastedRevenue, ScenarioForecast,
  OptimizationItem, Dict, figure, Validation, calculate_cash_on_cash, calculate_prr,
  calculate_budget_to_pp,
}
use adus_be.Calculator.Loans.{calculate_total_oop}
use adus_be.Saving.{DetailData}

-- the six figures that the purchase and the forecast give together
pub record Headline (D : Type 0) : Type 0 where
  pub total_oop : D
  pub prr : D
  pub budget_to_pp : D
  pub cash_on_cash : Scenarios D

module _ {D : Type 0} where
  -- `data[key] = value`
  abbrev pub assign : String → D → Dict D → Dict D
  assign key value data_so_far = insert key (figure value) data_so_far

  abbrev pub with_price : Option (PurchaseDetails D) → Dict D → Dict D
  with_price none row = row
  with_price (some details) row = assign "purchase_price" details.dumped.purchase_price row

  abbrev pub gross : ScenarioForecast D → D
  gross s = s.dumped.forecasted_revenue

  abbrev pub with_revenues : ForecastedRevenue D → Dict D → Dict D
  with_revenues forecasted row = assign "high_gross_revenue" (gross forecasted.scenarios.high) (
      assign "mid_gross_revenue" (gross forecasted.scenarios.mid)
        (assign "low_gross_revenue" (gross forecasted.scenarios.low) row))

  abbrev pub with_headline : Headline D → Dict D → Dict D
  with_headline h row = assign "h_cash_on_cash" h.cash_on_cash.high (
      assign "m_cash_on_cash" h.cash_on_cash.mid (
        assign "l_cash_on_cash" h.cash_on_cash.low (
          assign "budget_to_pp" h.budget_to_pp
            (assign "prr" h.prr (assign "total_oop" h.total_oop row)))))

module _ {D : Type 0} (num : Decimals D) (validate : Validation D) where
  module _ (items : List (OptimizationItem D)) (project_loan : Option (Dict D)) where
    unfoldable pub headline : PurchaseDetails D → ForecastedRevenue D → Result Failure (Headline D)
    headline details forecasted =
        calculate_total_oop num validate details items project_loan >>= λ total_oop.
        calculate_cash_on_cash num forecasted total_oop >>= λ cash_on_cash.
        calculate_prr num details.dumped.purchase_price (gross forecasted.scenarios.mid) >>= λ prr.
        calculate_budget_to_pp num total_oop details.dumped.purchase_price >>= λ budget_to_pp.
        ok (record {
          total_oop = total_oop;
          prr = prr;
          budget_to_pp = budget_to_pp;
          cash_on_cash = cash_on_cash;
        })

    abbrev pub with_figures :
        Option (PurchaseDetails D) → Option (ForecastedRevenue D) → Dict D → Result Failure (Dict D)
    with_figures purchase none row = ok row
    with_figures none (some forecasted) row = ok (with_revenues forecasted row)
    with_figures (some details) (some forecasted) row =
        headline details forecasted >>= λ h. ok (with_headline h (with_revenues forecasted row))

    unfoldable pub apply_calculated_underwriting_fields :
        Option (DetailData D) → Dict D → Result Failure (Dict D)
    apply_calculated_underwriting_fields none row = ok row
    apply_calculated_underwriting_fields (some details) row =
        with_figures details.purchase_details details.forecasted_revenue
          (with_price details.purchase_details row)
