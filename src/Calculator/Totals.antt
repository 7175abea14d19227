-- ===== src/Calculator/Totals.antt =====
-- The calculations read the two collections through their totals alone
-- (app/iron_bank/services/engine/underwriting_calculator.py).
use adus_be.Prelude.{◌≡◌, refl, ap, ◌∙◌, ◌>>=◌, Option, List, map}
use adus_be.Calculator.{
  Decimals, PurchaseDetails, ForecastedRevenueInput, ForecastedRevenue, Dict, Validation,
  OptimizationItem, OperatingExpense, total, optimization_total,
}
use adus_be.Calculator.Loans.{project_loan_amount, out_of_pocket, gross_oop, calculate_total_oop}
use adus_be.Calculator.Forecast.{
  basis, calculate_forecasted_revenue, calculate_y1_coc_incl_tax_savings,
}

module _ {D : Type 0} (num : Decimals D) (validate : Validation D) where
  -- the same totals, and the same amount lent
  pub record SameTotals (e₁ e₂ : List (OperatingExpense D)) (i₁ i₂ : List (OptimizationItem D))
      (l₁ l₂ : Option (Dict D)) : Type 0 where
    pub expenses :
        total num (map OperatingExpense.monthly_amount e₁)
        ≡ total num (map OperatingExpense.monthly_amount e₂)
    pub items : optimization_total num i₁ ≡ optimization_total num i₂
    pub loans : project_loan_amount num validate l₁ ≡ project_loan_amount num validate l₂

  module _ {e₁ e₂ : List (OperatingExpense D)} {i₁ i₂ : List (OptimizationItem D)}
      {l₁ l₂ : Option (Dict D)} (same : SameTotals e₁ e₂ i₁ i₂ l₁ l₂)
      (details : PurchaseDetails D) where
    pub calculate_total_oop_totals :
        calculate_total_oop num validate details i₁ l₁
        ≡ calculate_total_oop num validate details i₂ l₂
    unfolding calculate_total_oop
    calculate_total_oop_totals =
        ap
          (λ t.
            project_loan_amount num validate l₁
            >>= out_of_pocket num
                (num.add (num.add details.down_payment_amount details.closing_costs_amount) t))
          same.items
        ∙ ap (λ lent. lent >>= out_of_pocket num (gross_oop num details i₂)) same.loans

    pub calculate_forecasted_revenue_totals :
        (input : ForecastedRevenueInput D)
        → calculate_forecasted_revenue num validate input details e₁ i₁ l₁
          ≡ calculate_forecasted_revenue num validate input details e₂ i₂ l₂
    unfolding calculate_forecasted_revenue basis
    calculate_forecasted_revenue_totals input = rw (same.expenses, calculate_total_oop_totals) refl

    pub calculate_y1_coc_incl_tax_savings_totals :
        (forecast : ForecastedRevenue D) (tax_savings : D)
        → calculate_y1_coc_incl_tax_savings num validate forecast tax_savings details i₁ l₁
          ≡ calculate_y1_coc_incl_tax_savings num validate forecast tax_savings details i₂ l₂
    unfolding calculate_y1_coc_incl_tax_savings
    calculate_y1_coc_incl_tax_savings_totals forecast tax_savings =
        rw calculate_total_oop_totals refl
