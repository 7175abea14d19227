-- ===== src/Calculator/Loans.antt =====
-- Payments and balances of loans, and the cash out of pocket
-- (app/iron_bank/services/engine/underwriting_calculator.py).
use adus_be.Prelude.{
  Option, none, some, List, [], ◌∷◌, Result, ok, err, ◌>>=◌, if◌then◌else◌, ℤ, pos,
}
use adus_be.Calculator.{
  Failure, value_error, Decimals, times_12, opposite, PurchaseDetails, ProjectLoanInput,
  ProjectLoan, Value, figure, integer, json, Dict, Validation, months_in_year, or_nought,
  OptimizationItem, optimization_total, money,
}
use adus_be.Json.{null}

module _ {D : Type 0} (num : Decimals D) where
  open num use {decimal, of_int, add, sub, mul, div, pow, less, is_zero}

  unfoldable pub pmt : D → ℤ → D → Result Failure D
  pmt rate nper pv =
      let level = div pv (of_int nper) in
      let annuity = pow (add (decimal "1") rate) (opposite nper) >>= λ discount.
      div (mul pv rate) (sub (decimal "1") discount) in
      if is_zero rate then level else annuity

  unfoldable pub ending_balance : D → D → ℤ → ℤ → Result Failure D
  ending_balance loan_amount rate years months_elapsed =
      let straight = pmt (decimal "0") (times_12 years) loan_amount >>= λ monthly_payment.
      ok (sub loan_amount (mul monthly_payment (of_int months_elapsed))) in
      let total_months = times_12 years in
      let annuity = div rate (months_in_year num) >>= λ monthly_rate.
      let growth = pow (add (decimal "1") monthly_rate) in
      growth months_elapsed >>= λ so_far. growth total_months >>= λ at_end.
      growth total_months >>= λ below.
      div (mul loan_amount (sub so_far at_end)) (sub (decimal "1") below) in
      if is_zero rate then straight else annuity

  unfoldable pub calculate_debt_service_annual : PurchaseDetails D → Result Failure D
  calculate_debt_service_annual details =
      div details.dumped.interest_rate (months_in_year num) >>= λ rate.
      pmt rate (times_12 details.dumped.mortgage_years) details.loan_amount >>= λ monthly_payment.
      ok (mul monthly_payment (months_in_year num))

  unfoldable pub calculate_year_one_principal_pay_down : PurchaseDetails D → Result Failure D
  calculate_year_one_principal_pay_down details =
      ending_balance details.loan_amount details.dumped.interest_rate details.dumped.mortgage_years
        (pos 12)
      >>= λ balance. ok (sub details.loan_amount balance)

  -- The loan's payment, once all three terms are there.
  abbrev pub loan_payment : Option D → Option D → Option ℤ → Result Failure (Option D)
  loan_payment (some loan_amount) (some interest_rate) (some terms_years) =
      div interest_rate (months_in_year num) >>= λ rate.
      pmt rate (times_12 terms_years) loan_amount >>= λ payment.
      money num payment >>= λ monthly_amount. ok (some monthly_amount)
  loan_payment _ _ _ = ok none

  unfoldable pub calculate_project_loan : ProjectLoanInput D → Result Failure (ProjectLoan D)
  calculate_project_loan loan =
      loan_payment loan.loan_amount loan.interest_rate loan.terms_years >>= λ monthly_amount.
      ok (record { dumped = loan; monthly_amount = monthly_amount })

  -- what `calculate_project_loan` returns, as the dict that it is
  abbrev pub optional_figure : Option D → Value D
  optional_figure none = json null
  optional_figure (some x) = figure x

  abbrev pub optional_integer : Option ℤ → Value D
  optional_integer none = json null
  optional_integer (some n) = integer n

  abbrev pub project_loan_dict : ProjectLoan D → Dict D
  project_loan_dict loan =
      ("loan_amount", optional_figure loan.dumped.loan_amount)
      ∷ ("interest_rate", optional_figure loan.dumped.interest_rate)
      ∷ ("terms_years", optional_integer loan.dumped.terms_years)
      ∷ ("monthly_amount", optional_figure loan.monthly_amount)
      ∷ []

  module _ (validate : Validation D) where
    -- None and `{}` are no loan
    unfoldable pub project_loan_amount : Option (Dict D) → Result Failure D
    project_loan_amount none = ok (or_nought num none)
    project_loan_amount (some []) = ok (or_nought num none)
    project_loan_amount (some (entry ∷ entries)) =
        validate.project_loan (entry ∷ entries) >>= λ loan.
        ok (or_nought num (ProjectLoanInput.loan_amount loan))

  abbrev pub gross_oop : PurchaseDetails D → List (OptimizationItem D) → D
  gross_oop details optimization_items =
      add (add details.down_payment_amount details.closing_costs_amount)
        (optimization_total num optimization_items)

  -- the figure and its two guards
  abbrev pub out_of_pocket : D → D → Result Failure D
  out_of_pocket gross loan_amount =
      let total_oop = sub gross loan_amount in
      if less gross loan_amount
      then err (value_error "project loan amount cannot exceed the out-of-pocket total it finances")
      else if is_zero total_oop
      then err (value_error "total_oop is required to calculate forecasted revenue")
      else ok total_oop

  unfoldable pub calculate_total_oop :
      Validation D
      → PurchaseDetails D
      → List (OptimizationItem D)
      → Option (Dict D)
      → Result Failure D
  calculate_total_oop validate details optimization_items project_loan =
      project_loan_amount validate project_loan >>= λ loan_amount.
      out_of_pocket (gross_oop details optimization_items) loan_amount
