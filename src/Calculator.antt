-- ===== src/Calculator.antt =====
-- The underwriting calculator (app/iron_bank/services/engine/underwriting_calculator.py) and the input
-- models it reads (app/iron_bank/schemas/save_underwriting.py). Python's `decimal.Decimal` is the
-- parameter `Decimals`, and pydantic's validation of a stored project loan an argument.
pub mod Loans
pub mod Forecast
pub mod Guards
pub mod Totals
use adus_be.Prelude.{
  ℕ, zero, suc, ◌*◌, ◌+◌, Bool, true, false, Option, none, some, List, [], ◌∷◌, map, String, Result,
  ok, err, ◌>>=◌, ◌>>◌, if◌then◌else◌, ℤ, pos, negsuc,
}
use adus_be.Json.{Json}

-- The exceptions the calculations raise: those that `_simulate_row` lists, and `ArithmeticError`, of which
-- `decimal` raises its own (division by zero, or a quotient or a rounding that is undefined).
pub data Failure : Type 0 where
  value_error : String → Failure
  key_error type_error validation_error arithmetic_error : Failure

-- What is used of `decimal.Decimal`. Sums, differences and products stay inside the exponent range of
-- the default context; a quotient, a power and a rounding can raise.
pub record Decimals (D : Type 0) : Type 0 where
  pub decimal : String → D
  pub of_int : ℤ → D
  pub add : D → D → D
  pub sub : D → D → D
  pub mul : D → D → D
  pub div : D → D → Result Failure D
  pub pow : D → ℤ → Result Failure D
  pub quantize : D → String → Result Failure D
  pub less : D → D → Bool
  pub is_zero : D → Bool

-- `years * 12` and `-n` on Python's integers
abbrev pub times_12 : ℤ → ℤ
times_12 (pos n) = pos (n * 12)
times_12 (negsuc n) = negsuc (n * 12 + 11)

abbrev pub opposite : ℤ → ℤ
opposite (pos zero) = pos zero
opposite (pos (suc n)) = negsuc n
opposite (negsuc n) = pos (suc n)

-- the three scenarios, in the order of `scenario_multipliers`
pub record Scenarios (A : Type 0) : Type 0 where
  pub low : A
  pub mid : A
  pub high : A

-- one entry after the other; the first exception ends the loop
abbrev pub each_scenario :
    {A B E : Type 0} → (A → Result E B) → Scenarios A → Result E (Scenarios B)
each_scenario body s = body s.low >>= λ low.
    body s.mid >>= λ mid. body s.high >>= λ high. ok (record { low = low; mid = mid; high = high })

module _ (D : Type 0) where
  -- a value of a stored dict
  pub data Value : Type 0 where
    figure : D → Value
    integer : ℤ → Value
    json : Json → Value

  abbrev pub Dict : Type 0
  Dict = List (String × Value)

  -- extra="allow": `extra` holds the other keys
  pub record PurchaseDetailsInput : Type 0 where
    pub purchase_price : D
    pub down_payment_pct : D
    pub interest_rate : D
    pub mortgage_years : ℤ
    pub closing_costs_pct : D
    pub extra : List (String × Json)

  -- The result of `calculate_purchase_details`: the input's dump under the three amounts.
  pub record PurchaseDetails : Type 0 where
    pub dumped : PurchaseDetailsInput
    pub down_payment_amount : D
    pub loan_amount : D
    pub closing_costs_amount : D

  pub record ScenarioInput : Type 0 where
    pub forecasted_revenue : D
    pub extra : List (String × Json)

  pub record ForecastedRevenueInput : Type 0 where
    pub co_hosting_fee_pct : D
    pub annual_re_appreciation_pct : D
    pub scenarios : Scenarios ScenarioInput
    pub extra : List (String × Json)

  pub record ScenarioForecast : Type 0 where
    pub dumped : ScenarioInput
    pub operating_expenses_annual : D
    pub co_hosting_fee : D
    pub net_operating_income : D
    pub debt_service_annual : D
    pub annual_free_cash_flow : D
    pub principal_pay_down : D
    pub annual_re_appreciation : D
    pub annual_total_re_return_pct : D

  pub record ForecastedRevenue : Type 0 where
    pub dumped : ForecastedRevenueInput
    pub scenarios : Scenarios ScenarioForecast

  pub record ProjectLoanInput : Type 0 where
    pub loan_amount : Option D
    pub interest_rate : Option D
    pub terms_years : Option ℤ

  pub record ProjectLoan : Type 0 where
    pub dumped : ProjectLoanInput
    pub monthly_amount : Option D

  -- pydantic's `model_validate` of the three models that are read back from stored dicts
  pub record Validation : Type 0 where
    pub purchase_details : Dict → Result Failure PurchaseDetailsInput
    pub forecasted_revenue : Dict → Result Failure ForecastedRevenueInput
    pub project_loan : Dict → Result Failure ProjectLoanInput

  pub record TaxInput : Type 0 where
    pub land_assumptions_pct : D
    pub sla_multiplier_pct : D
    pub bonus_amount_pct : D
    pub tax_rate_pct : D

  pub record TaxData : Type 0 where
    pub dumped : TaxInput
    pub improvement_basis : D
    pub estimated_short_life_assets : D
    pub y1_loss_from_depreciation : D
    pub tax_savings : D

  pub record OptimizationItem : Type 0 where
    pub id : Option ℕ
    pub category : Option String
    pub total_price : Option D
    pub metric : Option String
    pub base_price : Option D
    pub spec : Option String
    pub tier : Option String
    pub notes : Option String

  pub record OperatingExpense : Type 0 where
    pub id : Option ℕ
    pub expense_name : Option String
    pub monthly_amount : Option D

module _ {D : Type 0} (num : Decimals D) where
  open num use {decimal, of_int, add, sub, mul, div, quantize, is_zero}

  abbrev pub nought : D
  nought = decimal "0"

  abbrev pub months_in_year : D
  months_in_year = decimal "12"

  -- `figure or Decimal("0")`: a zero is falsy as None is
  abbrev pub or_nought : Option D → D
  or_nought none = nought
  or_nought (some x) = if is_zero x then nought else x

  -- `sum(figure or Decimal("0") for ...)`, which starts at the integer 0
  unfoldable pub total : List (Option D) → D
  total figures = total_from (of_int (pos 0)) figures
    where
      total_from : D → List (Option D) → D
      total_from acc [] = acc
      total_from acc (x ∷ xs) = total_from (add acc (or_nought x)) xs

  abbrev pub money : D → Result Failure D
  money value = quantize value "0.01"

  abbrev pub percentage : D → Result Failure D
  percentage value = quantize value "0.0001"

  abbrev pub y1_coc_percentage : D → Result Failure D
  y1_coc_percentage value = quantize value "0.001"

  unfoldable pub calculate_purchase_details : PurchaseDetailsInput D → PurchaseDetails D
  calculate_purchase_details input =
      let down_payment_amount = mul input.purchase_price input.down_payment_pct in
      record {
        dumped = input;
        down_payment_amount = down_payment_amount;
        loan_amount = sub input.purchase_price down_payment_amount;
        closing_costs_amount = mul input.purchase_price input.closing_costs_pct;
      }

  abbrev pub optimization_total : List (OptimizationItem D) → D
  optimization_total items = total (map OptimizationItem.total_price items)

  unfoldable pub calculate_taxes : TaxInput D → D → List (OptimizationItem D) → TaxData D
  calculate_taxes taxes purchase_price optimization_items =
      let improvement_basis =
        add (mul purchase_price (sub (decimal "1") taxes.land_assumptions_pct))
          (optimization_total optimization_items) in
      let estimated_short_life_assets = mul improvement_basis taxes.sla_multiplier_pct in
      let y1_loss_from_depreciation = mul estimated_short_life_assets taxes.bonus_amount_pct in
      record {
        dumped = taxes;
        improvement_basis = improvement_basis;
        estimated_short_life_assets = estimated_short_life_assets;
        y1_loss_from_depreciation = y1_loss_from_depreciation;
        tax_savings = mul taxes.tax_rate_pct y1_loss_from_depreciation;
      }

  unfoldable pub calculate_cash_on_cash : ForecastedRevenue D → D → Result Failure (Scenarios D)
  calculate_cash_on_cash forecast total_oop =
      let rates =
        each_scenario (λ s. div (ScenarioForecast.annual_free_cash_flow s) total_oop >>= percentage)
          forecast.scenarios in
      if is_zero total_oop
      then err (value_error "total_oop is required to calculate cash on cash")
      else rates

  unfoldable pub calculate_prr : D → D → Result Failure D
  calculate_prr purchase_price mid_gross_revenue =
      let prr = div mid_gross_revenue purchase_price >>= percentage in
      if is_zero mid_gross_revenue
      then err (value_error "mid gross revenue is required to calculate PRR")
      else prr

  unfoldable pub calculate_budget_to_pp : D → D → Result Failure D
  calculate_budget_to_pp total_oop purchase_price =
      let budget = div total_oop purchase_price >>= percentage in
      if is_zero purchase_price
      then err (value_error "purchase_price is required to calculate budget to PP")
      else budget
