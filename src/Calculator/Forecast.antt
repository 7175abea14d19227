-- ===== src/Calculator/Forecast.antt =====
-- The forecast of the three scenarios (app/iron_bank/services/engine/underwriting_calculator.py).
use adus_be.Prelude.{Option, List, map, String, Result, ok, ◌>>=◌}
use adus_be.Calculator.{
  Failure, Decimals, Scenarios, each_scenario, PurchaseDetails, ScenarioInput,
  ForecastedRevenueInput, ScenarioForecast, ForecastedRevenue, Dict, Validation, months_in_year,
  total, OptimizationItem, OperatingExpense, money, percentage, y1_coc_percentage,
}
use adus_be.Calculator.Loans.{
  calculate_debt_service_annual, calculate_year_one_principal_pay_down, calculate_total_oop,
}

module _ {D : Type 0} (num : Decimals D) where
  open num use {decimal, add, sub, mul, div}

  -- what the three scenarios share
  pub record Basis : Type 0 where
    pub total_opex_monthly : D
    pub debt_service_annual : D
    pub principal_pay_down : D
    pub annual_re_appreciation : D
    pub total_oop : D

  unfoldable pub scenario_forecast :
      D → Basis → String × ScenarioInput D → Result Failure (ScenarioForecast D)
  scenario_forecast co_hosting_fee_pct b (opex_multiplier, scenario) =
      let revenue = scenario.forecasted_revenue in
      let operating_expenses_annual =
        mul (mul b.total_opex_monthly (months_in_year num)) (decimal opex_multiplier) in
      let co_hosting_fee = mul revenue co_hosting_fee_pct in
      let net_operating_income = sub (sub revenue operating_expenses_annual) co_hosting_fee in
      let annual_free_cash_flow = sub net_operating_income b.debt_service_annual in
      div (add (add annual_free_cash_flow b.principal_pay_down) b.annual_re_appreciation)
        b.total_oop
      >>= λ annual_total_re_return_pct. money num operating_expenses_annual >>= λ opex.
          money num co_hosting_fee >>= λ fee. money num net_operating_income >>= λ noi.
          money num b.debt_service_annual >>= λ dsa.
          money num annual_free_cash_flow >>= λ cash_flow.
          money num b.principal_pay_down >>= λ pay_down.
          money num b.annual_re_appreciation >>= λ appreciation.
          percentage num annual_total_re_return_pct >>= λ return_pct. ok (record {
            dumped = scenario;
            operating_expenses_annual = opex;
            co_hosting_fee = fee;
            net_operating_income = noi;
            debt_service_annual = dsa;
            annual_free_cash_flow = cash_flow;
            principal_pay_down = pay_down;
            annual_re_appreciation = appreciation;
            annual_total_re_return_pct = return_pct;
          })

  -- scenario_multipliers, beside the scenarios of the input
  abbrev pub with_multipliers : Scenarios (ScenarioInput D) → Scenarios (String × ScenarioInput D)
  with_multipliers s = record { low = ("0.96", s.low); mid = ("1", s.mid); high = ("1.04", s.high) }

  module _ (validate : Validation D) where
    unfoldable pub basis :
        ForecastedRevenueInput D
        → PurchaseDetails D
        → List (OperatingExpense D)
        → List (OptimizationItem D)
        → Option (Dict D)
        → Result Failure Basis
    basis input details operating_expenses optimization_items project_loan =
        calculate_debt_service_annual num details >>= λ debt_service.
        calculate_year_one_principal_pay_down num details >>= λ pay_down.
        calculate_total_oop num validate details optimization_items project_loan >>= λ total_oop.
        ok (record {
          total_opex_monthly = total num (map OperatingExpense.monthly_amount operating_expenses);
          debt_service_annual = debt_service;
          principal_pay_down = pay_down;
          annual_re_appreciation =
              mul details.dumped.purchase_price input.annual_re_appreciation_pct;
          total_oop = total_oop;
        })

    unfoldable pub calculate_forecasted_revenue :
        ForecastedRevenueInput D
        → PurchaseDetails D
        → List (OperatingExpense D)
        → List (OptimizationItem D)
        → Option (Dict D)
        → Result Failure (ForecastedRevenue D)
    calculate_forecasted_revenue input details operating_expenses optimization_items project_loan =
        basis input details operating_expenses optimization_items project_loan >>= λ b.
        each_scenario (scenario_forecast input.co_hosting_fee_pct b)
          (with_multipliers input.scenarios)
        >>= λ scenarios. ok (record { dumped = input; scenarios = scenarios })

    unfoldable pub calculate_y1_coc_incl_tax_savings :
        ForecastedRevenue D
        → D
        → PurchaseDetails D
        → List (OptimizationItem D)
        → Option (Dict D)
        → Result Failure (Scenarios D)
    calculate_y1_coc_incl_tax_savings forecast tax_savings details optimization_items project_loan =
        calculate_total_oop num validate details optimization_items project_loan >>= λ total_oop.
        each_scenario
          (λ s.
            div
              (add
                (sub (ScenarioForecast.net_operating_income s)
                  (ScenarioForecast.debt_service_annual s))
                tax_savings)
              total_oop
            >>= y1_coc_percentage num)
          forecast.scenarios
