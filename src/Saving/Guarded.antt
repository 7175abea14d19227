-- ===== src/Saving/Guarded.antt =====
-- What can still fail once the details are built
-- (app/iron_bank/services/operations/save_underwriting_service.py).
use adus_be.Prelude.{
  ◌≡◌, sym, ◌∙◌, ◌⊎◌, inl, inr, Bool, true, false, Bool-cases, Option, none, some, List, Result, ok,
  err, >>=-eq-ok, >>=-eq-err, ok≢err, ok-injective, err-injective, ℕ, if◌then◌else◌, ◌>>=◌,
}
use mathlib.Core.Path.{subst}
use mathlib.Core.Option
use mathlib.Core.Option.{some-injective}
use adus_be.Calculator.{
  Failure, value_error, arithmetic_error, Decimals, Scenarios, PurchaseDetails, ForecastedRevenue,
  ForecastedRevenueInput, ScenarioForecast, OptimizationItem, Dict, Validation, TaxData, percentage,
  calculate_purchase_details, calculate_cash_on_cash, calculate_prr, calculate_budget_to_pp,
}
use adus_be.Calculator.Loans.{calculate_total_oop}
use adus_be.Calculator.Forecast.{calculate_forecasted_revenue}
use adus_be.Calculator.Guards.{
  IsArithmetic, IsContained, each_scenario-IsArithmetic, >>=-IsArithmetic, calculate_total_oop_lem,
  calculate_forecasted_revenue-calculate_total_oop,
}
use adus_be.Saving.{Payload, DetailsInput, DetailData, sent, Readers}
use adus_be.Saving.Details.{
  first_loan, project_loan_for_calculation, sent_loan, forecast_input, forecast, year_one,
  details_of, build_detail_data,
}
use adus_be.Saving.Fields.{
  Headline, headline, with_price, with_figures, apply_calculated_underwriting_fields,
}

-- `if guard: raise message`
guard_err :
    {A : Type 0} (b : Bool) (message e : Failure) (rest : Result Failure A)
    → (if b then err message else rest) ≡ err e
    → (e ≡ message) ⊎ (rest ≡ err e)
guard_err true message e rest h = inl (sym (err-injective h))
guard_err false message e rest h = inr h

guard_ok :
    {A : Type 0} (b : Bool) (message : Failure) {a : A} (rest : Result Failure A)
    → (if b then err message else rest) ≡ ok a
    → rest ≡ ok a
guard_ok true message rest h = absurd (ok≢err (sym h))
guard_ok false message rest h = h

module _ {D : Type 0} (num : Decimals D) where
  -- an exception of the arithmetic, or the one for a mid revenue of zero
  abbrev pub IsLeft : Failure → Type 0
  IsLeft e =
      (e ≡ arithmetic_error) ⊎ (e ≡ value_error "mid gross revenue is required to calculate PRR")

  -- dividing by zero raises
  abbrev pub DividesByNoZero : Type 0
  DividesByNoZero = (x y : D) → num.is_zero y ≡ true → num.div x y ≡ err arithmetic_error

  -- the last two calls of the headline figures
  abbrev prr_then_budget : D → D → D → Scenarios D → Result Failure (Headline D)
  prr_then_budget t price mid coc = calculate_prr num price mid >>= λ prr.
      calculate_budget_to_pp num t price >>= λ budget.
      ok (record { total_oop = t; prr = prr; budget_to_pp = budget; cash_on_cash = coc })

  module _ (contained : IsContained num) where
    rate-IsArithmetic : (x y : D) → IsArithmetic (num.div x y >>= percentage num)
    rate-IsArithmetic x y =
        >>=-IsArithmetic (num.div x y) (percentage num) (contained.div_raises x y)
          (λ q. contained.quantize_raises q "0.0001")

    calculate_cash_on_cash-IsArithmetic :
        (forecasted : ForecastedRevenue D) (t : D)
        → num.is_zero t ≡ false
        → IsArithmetic (calculate_cash_on_cash num forecasted t)
    unfolding calculate_cash_on_cash
    calculate_cash_on_cash-IsArithmetic forecasted t h = rw h (
        each_scenario-IsArithmetic _ forecasted.scenarios
          (λ s. rate-IsArithmetic (ScenarioForecast.annual_free_cash_flow s) t))

    calculate_prr-IsLeft :
        (price mid : D) (e : Failure) → calculate_prr num price mid ≡ err e → IsLeft e
    unfolding calculate_prr
    calculate_prr-IsLeft price mid e h =
        elim (guard_err (num.is_zero mid) _ e (num.div mid price >>= percentage num) h) [
          | inl zero_mid ↦ inr zero_mid
          | inr raised ↦ inl (rate-IsArithmetic mid price e raised)
        ]

    calculate_prr-price :
        DividesByNoZero
        → (price mid : D) {prr : D} → calculate_prr num price mid ≡ ok prr
        → num.is_zero price ≡ false
    unfolding calculate_prr
    calculate_prr-price by_zero price mid h = elim (Bool-cases (num.is_zero price)) [
      | inl free ↦
          let called = guard_ok (num.is_zero mid) _ (num.div mid price >>= percentage num) h in
          let (q, divided, _) = >>=-eq-ok (num.div mid price) (percentage num) called in
          absurd (ok≢err (sym divided ∙ by_zero mid price free))
      | inr priced ↦ priced
    ]

    calculate_budget_to_pp-IsArithmetic :
        (t price : D)
        → num.is_zero price ≡ false
        → IsArithmetic (calculate_budget_to_pp num t price)
    unfolding calculate_budget_to_pp
    calculate_budget_to_pp-IsArithmetic t price h = rw h (rate-IsArithmetic t price)

    module _ (validate : Validation D) (by_zero : DividesByNoZero) where
      headline-IsLeft :
          (items : List (OptimizationItem D)) (loan : Option (Dict D)) (details : PurchaseDetails D)
          (forecasted : ForecastedRevenue D) (t : D)
          → calculate_total_oop num validate details items loan ≡ ok t
          → (e : Failure) → headline num validate items loan details forecasted ≡ err e
          → IsLeft e
      unfolding headline
      headline-IsLeft items loan details forecasted t totalled e h =
          elim (>>=-eq-err (calculate_total_oop num validate details items loan) _ h) [
            | inl raised ↦ absurd (ok≢err (sym totalled ∙ raised))
            | inr (t₁, found, h₁) ↦
                elim (>>=-eq-err (calculate_cash_on_cash num forecasted t₁) _ h₁) [
                  | inl raised ↦ inl (
                      calculate_cash_on_cash-IsArithmetic forecasted t₁
                        (calculate_total_oop_lem num validate details items loan t₁ found).4 e
                        raised)
                  | inr (coc, _, h₂) ↦ prr_and_budget t₁ details.dumped.purchase_price _ coc e h₂
                ]
          ]
        where
          prr_and_budget :
              (t price mid : D) (coc : Scenarios D) (e : Failure)
              → prr_then_budget t price mid coc ≡ err e
              → IsLeft e
          prr_and_budget t price mid coc e h = elim (>>=-eq-err (calculate_prr num price mid) _ h) [
            | inl raised ↦ calculate_prr-IsLeft price mid e raised
            | inr (prr, got, h₃) ↦ elim (>>=-eq-err (calculate_budget_to_pp num t price) _ h₃) [
              | inl raised ↦ inl (
                  calculate_budget_to_pp-IsArithmetic t price
                    (calculate_prr-price by_zero price mid got) e raised)
              | inr (_, _, h₄) ↦ absurd (ok≢err h₄)
            ]
          ]

      -- a forecast that was built leaves a cash out of pocket
      with_figures-IsLeft :
          (readers : Readers D) (payload : Payload D) (loan : Option (Dict D))
          (purchase : Option (PurchaseDetails D)) (input : Option (ForecastedRevenueInput D))
          (forecasted : Option (ForecastedRevenue D)) (row : Dict D)
          → forecast num validate readers payload loan purchase input ≡ ok forecasted
          → (e : Failure)
          → with_figures num validate payload.optimization_list loan purchase forecasted row ≡ err e
          → IsLeft e
      with_figures-IsLeft readers payload loan purchase input none row built e h = absurd (ok≢err h)
      with_figures-IsLeft readers payload loan none input (some f) row built e h = absurd (ok≢err h)
      with_figures-IsLeft readers payload loan (some p) none (some f) row built e h = cc
      with_figures-IsLeft readers payload loan (some p) (some i) (some f) row built e h =
          let (g, calculated, _) =
            >>=-eq-ok
              (calculate_forecasted_revenue num validate i p payload.operating_expenses
                payload.optimization_list loan)
              _ built in
          let (t, totalled) =
            calculate_forecasted_revenue-calculate_total_oop num validate p
              payload.optimization_list loan i payload.operating_expenses calculated in
          elim (>>=-eq-err (headline num validate payload.optimization_list loan p f) _ h) [
            | inl raised ↦ headline-IsLeft payload.optimization_list loan p f t totalled e raised
            | inr (_, _, h₁) ↦ absurd (ok≢err h₁)
          ]

      details_of-IsLeft :
          (readers : Readers D) (payload : Payload D) (taxes : Option (TaxData D))
          (market_id bedrooms : Option ℕ) (stored : Option (Dict D))
          (details : Option (DetailsInput D)) (built : DetailData D)
          → details_of num validate readers payload taxes market_id bedrooms stored details
            ≡ ok (some built)
          → (row : Dict D) (e : Failure)
          → apply_calculated_underwriting_fields num validate payload.optimization_list
              (project_loan_for_calculation (some built) stored)
              (some built)
              row
            ≡ err e
          → IsLeft e
      unfolding apply_calculated_underwriting_fields project_loan_for_calculation
      details_of-IsLeft readers payload taxes market_id bedrooms stored none built h row e g = cc
      details_of-IsLeft readers payload taxes market_id bedrooms stored (some d) built h row e g =
          let purchase = Option.map (calculate_purchase_details num) d.purchase_details in
          let (own, _, h₁) = >>=-eq-ok (sent_loan num validate readers d.opex_project_loan) _ h in
          let (input, _, h₂) =
            >>=-eq-ok
              (forecast_input num validate readers market_id bedrooms d.purchase_details
                d.forecasted_revenue)
              _ h₁ in
          let loan = first_loan own stored in
          let (f, forecasted, h₃) =
            >>=-eq-ok (forecast num validate readers payload loan purchase input) _ h₂ in
          let (y1, _, h₄) =
            >>=-eq-ok
              (year_one num validate readers payload loan purchase f taxes
                (Option.map sent d.y1_coc_incl_tax_savings))
              _ h₃ in
          let same = some-injective _ _ (ok-injective h₄) in
          with_figures-IsLeft readers payload loan purchase input f (with_price purchase row)
            forecasted e
            (subst
              (λ b.
                with_figures num validate payload.optimization_list
                  (first_loan (DetailData.opex_project_loan b) stored)
                  (DetailData.purchase_details b) (DetailData.forecasted_revenue b)
                  (with_price (DetailData.purchase_details b) row)
                ≡ err e)
              (sym same) g)

      -- Once the details are built, whatever was sent, the figures can fail only in the arithmetic or for a
      -- mid revenue of zero: the guards for the project loan, the cash out of pocket and the purchase
      -- price are never reached with anything to refuse.
      pub build_detail_data-apply :
          (readers : Readers D) (payload : Payload D) (taxes : Option (TaxData D))
          (market_id bedrooms : Option ℕ) (stored : Option (Dict D)) (built : DetailData D)
          → build_detail_data num validate readers payload taxes market_id bedrooms stored
            ≡ ok (some built)
          → (row : Dict D) (e : Failure)
          → apply_calculated_underwriting_fields num validate payload.optimization_list
              (project_loan_for_calculation (some built) stored)
              (some built)
              row
            ≡ err e
          → IsLeft e
      unfolding build_detail_data
      build_detail_data-apply readers payload taxes market_id bedrooms stored built h =
          details_of-IsLeft readers payload taxes market_id bedrooms stored payload.details built h
