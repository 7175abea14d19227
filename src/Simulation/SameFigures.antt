-- ===== src/Simulation/SameFigures.antt =====
-- A simulation without overrides shows the figures that saving wrote
-- (app/iron_bank/services/operations/simulate_underwritings_service.py and
-- app/iron_bank/services/operations/save_underwriting_service.py).
use adus_be.Prelude.{
  ◌≡◌, refl, ap, ◌∙◌, ◌⊎◌, inl, inr, true, Option, none, some, List, ◌∷◌, String, Result, ok,
  >>=-eq-ok, ok-injective,
}
use adus_be.Calculator.{
  Failure, Decimals, Scenarios, PurchaseDetailsInput, PurchaseDetails, ForecastedRevenueInput,
  ForecastedRevenue, OptimizationItem, OperatingExpense, Dict, Value, Validation,
  calculate_purchase_details, calculate_cash_on_cash, calculate_prr, calculate_budget_to_pp,
}
use adus_be.Calculator.Loans.{calculate_total_oop}
use adus_be.Calculator.Forecast.{calculate_forecasted_revenue, calculate_y1_coc_incl_tax_savings}
use adus_be.Calculator.Totals.{
  SameTotals, calculate_total_oop_totals, calculate_forecasted_revenue_totals,
  calculate_y1_coc_incl_tax_savings_totals,
}
use adus_be.Saving.Fields.{Headline, headline, gross}
use adus_be.Simulation.{
  SimulationInput, SimulatedRow, items_of, expenses_of, y1_of, recalculate, simulated_row,
  from_stored, or_fallback, calculate_simulated_row, simulate_row,
}

module _ {D : Type 0} (num : Decimals D) (validate : Validation D) where
  -- what was saved: the terms, the collections and the loan of the underwriting, and its tax savings
  pub record Saved : Type 0 where
    pub purchase : PurchaseDetailsInput D
    pub input : ForecastedRevenueInput D
    pub expenses : List (OperatingExpense D)
    pub items : List (OptimizationItem D)
    pub loan : Option (Dict D)
    pub tax_savings : Option D

  -- The stored row reads back as what was saved: its dicts validate to the terms, and its sums are the
  -- totals of the collections.
  pub record IsStored (s : Saved) (row : SimulationInput D) : Type 0 where
    pub purchase_key : String × Value D
    pub purchase_rest : Dict D
    pub purchase_eq : row.purchase_details ≡ some (purchase_key ∷ purchase_rest)
    pub purchase_valid : validate.purchase_details (purchase_key ∷ purchase_rest) ≡ ok s.purchase
    pub forecast_key : String × Value D
    pub forecast_rest : Dict D
    pub forecast_eq : row.forecasted_revenue ≡ some (forecast_key ∷ forecast_rest)
    pub forecast_valid : validate.forecasted_revenue (forecast_key ∷ forecast_rest) ≡ ok s.input
    pub totals :
        SameTotals num validate
          (expenses_of num validate row)
          s.expenses
          (items_of num validate row)
          s.items
          row.opex_project_loan
          s.loan
    pub tax_eq : row.tax_savings ≡ s.tax_savings

  -- The calculations that saving went through: the forecast, the six figures and, where there are tax
  -- savings, the year-one return.
  pub record Calculated (s : Saved) : Type 0 where
    pub forecasted : ForecastedRevenue D
    pub forecasted_eq :
        calculate_forecasted_revenue num validate s.input
          (calculate_purchase_details num s.purchase)
          s.expenses
          s.items
          s.loan
        ≡ ok forecasted
    pub figures : Headline D
    pub figures_eq :
        headline num validate s.items s.loan (calculate_purchase_details num s.purchase) forecasted
        ≡ ok figures
    pub year_one :
        (s.tax_savings ≡ none)
        ⊎ ((t : D) × (s.tax_savings ≡ some t)
            × (rates : Scenarios D) × (calculate_y1_coc_incl_tax_savings num validate forecasted t
                  (calculate_purchase_details num s.purchase)
                  s.items
                  s.loan
                ≡ ok rates))

  -- the figures that a row shows
  abbrev pub Shows : SimulatedRow D → Headline D → Type 0
  Shows r h =
      (r.simulated ≡ true)
      × (r.total_oop ≡ some h.total_oop)
      × (r.budget_to_pp ≡ some h.budget_to_pp)
      × (r.l_cash_on_cash ≡ some h.cash_on_cash.low)
      × (r.m_cash_on_cash ≡ some h.cash_on_cash.mid)
      × (r.h_cash_on_cash ≡ some h.cash_on_cash.high)

  module _ (s : Saved) (row : SimulationInput D) (stored : IsStored s row) (c : Calculated s) where
    abbrev details : PurchaseDetails D
    details = calculate_purchase_details num s.purchase

    y1_of_ok :
        (y1 : Option (Scenarios D)) × (y1_of num validate row details c.forecasted row.tax_savings
          ≡ ok y1)
    y1_of_ok = elim c.year_one [
      | inl untaxed ↦ (none, rw (stored.tax_eq, untaxed) refl)
      | inr (t, taxed, rates, h) ↦ (
        some rates,
        rw
            (
              stored.tax_eq,
              taxed,
              calculate_y1_coc_incl_tax_savings_totals num validate stored.totals details
                  c.forecasted t,
              h,
            )
            refl,
      )
    ]

    recalculate_ok :
        (t : D) (coc : Scenarios D) (budget : D)
        → calculate_total_oop num validate details s.items s.loan ≡ ok t
        → calculate_cash_on_cash num c.forecasted t ≡ ok coc
        → calculate_budget_to_pp num t details.dumped.purchase_price ≡ ok budget
        → recalculate num validate row
            (stored.purchase_key ∷ stored.purchase_rest)
            (stored.forecast_key ∷ stored.forecast_rest)
          ≡ ok (simulated_row row details c.forecasted t coc budget y1_of_ok.0)
    unfolding recalculate
    recalculate_ok t coc budget h₁ h₂ h₃ =
        rw
          (
            stored.purchase_valid,
            stored.forecast_valid,
            calculate_forecasted_revenue_totals num validate stored.totals details s.input,
            c.forecasted_eq,
            calculate_total_oop_totals num validate stored.totals details,
            h₁,
            h₂,
            h₃,
            y1_of_ok.1,
          )
          refl

    abbrev settled : Result Failure (SimulatedRow D) → Result Failure (SimulatedRow D)
    settled = or_fallback num validate row none none

    -- A simulation that overrides nothing recalculates the row, from the two stored sums instead of the
    -- collections, and shows, marked as simulated, the cash to close, the budget ratio and the three
    -- cash-on-cash returns that saving calculated.
    pub simulate_row-saved :
        (r : SimulatedRow D) × (simulate_row num validate row none none ≡ ok r) × Shows r c.figures
    unfolding simulate_row calculate_simulated_row headline
    simulate_row-saved =
        let (t, h₁, rest₁) =
          >>=-eq-ok (calculate_total_oop num validate details s.items s.loan) _ c.figures_eq in
        let (coc, h₂, rest₂) = >>=-eq-ok (calculate_cash_on_cash num c.forecasted t) _ rest₁ in
        let (prr, h₃, rest₃) =
          >>=-eq-ok
            (calculate_prr num details.dumped.purchase_price (gross c.forecasted.scenarios.mid)) _
            rest₂ in
        let (budget, h₄, rest₄) =
          >>=-eq-ok (calculate_budget_to_pp num t details.dumped.purchase_price) _ rest₃ in
        let same = ok-injective rest₄ in
        (
          simulated_row row details c.forecasted t coc budget y1_of_ok.0,
          ap (λ o. settled (from_stored num validate row none none o row.forecasted_revenue))
                stored.purchase_eq
              ∙ ap
                  (λ o. settled (
                    from_stored num validate row none none
                      (some (stored.purchase_key ∷ stored.purchase_rest)) o))
                  stored.forecast_eq
              ∙ ap settled (recalculate_ok t coc budget h₁ h₂ h₄),
          (
            refl,
            ap (λ h. some (Headline.total_oop h)) same,
            ap (λ h. some (Headline.budget_to_pp h)) same,
            ap (λ h. some (Scenarios.low (Headline.cash_on_cash h))) same,
            ap (λ h. some (Scenarios.mid (Headline.cash_on_cash h))) same,
            ap (λ h. some (Scenarios.high (Headline.cash_on_cash h))) same,
          ),
        )
