-- ===== src/Examples/Figures.antt =====
-- Amounts for the tests: fixed-point numbers with four places, of which a difference stops at zero.
use adus_be.Prelude.{
  ℕ, zero, suc, ◌+◌, ◌-◌, ◌*◌, ◌/◌, refl, sym, arith, Bool, true, false, err-injective, ok≢err,
  none, some, [], ◌∷◌, String, str_eq, Result, ok, err, ltb, ◌==◌, if◌then◌else◌, ℤ, pos, negsuc,
  IsStrictOrder,
}
use adus_be.Calculator.{
  Failure, arithmetic_error, Decimals, PurchaseDetailsInput, ForecastedRevenueInput, ScenarioInput,
  ProjectLoanInput, Validation, OptimizationItem, OperatingExpense, Dict, figure,
}
use adus_be.Calculator.Guards.{IsArithmetic, IsContained}
use adus_be.Saving.Guarded.{DividesByNoZero}

abbrev pub unit : ℕ
unit = 10000

abbrev literal : String → ℕ
literal text =
    if str_eq text "0"
    then 0
    else if str_eq text "1"
    then unit
    else if str_eq text "12"
    then 12 * unit
    else if str_eq text "0.96"
    then 9600
    else if str_eq text "1.04"
    then 10400
    else 425

abbrev quotient : ℕ → ℕ → Result Failure ℕ
quotient a b = if b == 0 then err arithmetic_error else ok (a * unit / b)

abbrev power : ℕ → ℕ → ℕ
power x zero = unit
power x (suc n) = x * power x n / unit

abbrev pub fixed : Decimals ℕ
fixed = record {
  decimal = literal;
  of_int = whole;
  add = λ a b. a + b;
  sub = λ a b. a - b;
  mul = λ a b. a * b / unit;
  div = quotient;
  pow = raised;
  quantize = λ x unit_of. ok x;
  less = ltb;
  is_zero = λ x. x == 0;
}
  where
    whole : ℤ → ℕ
    whole (pos n) = n * unit
    whole (negsuc n) = 0

    raised : ℕ → ℤ → Result Failure ℕ
    raised x (pos n) = ok (power x n)
    raised x (negsuc n) = quotient unit (power x (suc n))

pub fixed_order : IsStrictOrder (Decimals.less fixed)
fixed_order = record { asym = λ a b h. ground arith; not_trans = λ a b c h k. ground arith }

guarded-IsArithmetic : (b : Bool) (q : ℕ) → IsArithmetic (if b then err arithmetic_error else ok q)
guarded-IsArithmetic true q e h = sym (err-injective h)
guarded-IsArithmetic false q e h = absurd (ok≢err h)

quotient-IsArithmetic : (a b : ℕ) → IsArithmetic (quotient a b)
quotient-IsArithmetic a b = guarded-IsArithmetic (b == 0) (a * unit / b)

pub fixed_contained : IsContained fixed
fixed_contained = record { div_raises = quotient-IsArithmetic; quantize_raises = λ x u e h. cc }

pub fixed_by_zero : DividesByNoZero fixed
fixed_by_zero x y h = rw h refl

abbrev pub purchase : PurchaseDetailsInput ℕ
purchase = record {
  purchase_price = 1000 * unit;
  down_payment_pct = 2000;
  interest_rate = 0;
  mortgage_years = pos 1;
  closing_costs_pct = 300;
  extra = [];
}

abbrev pub scenario : ℕ → ScenarioInput ℕ
scenario revenue = record { forecasted_revenue = revenue * unit; extra = [] }

abbrev pub forecast_terms : ForecastedRevenueInput ℕ
forecast_terms = record {
  co_hosting_fee_pct = 0;
  annual_re_appreciation_pct = 400;
  scenarios = record { low = scenario 2000; mid = scenario 3000; high = scenario 4000 };
  extra = [];
}

abbrev no_loan : ProjectLoanInput ℕ
no_loan = record { loan_amount = none; interest_rate = none; terms_years = none }

abbrev pub validation : Validation ℕ
validation = record {
  purchase_details = λ stored. ok purchase;
  forecasted_revenue = λ stored. ok forecast_terms;
  project_loan = λ stored. ok no_loan;
}

abbrev pub item : ℕ → OptimizationItem ℕ
item price = record {
  id = none;
  category = some "Flooring";
  total_price = some (price * unit);
  metric = none;
  base_price = none;
  spec = none;
  tier = none;
  notes = none;
}

abbrev pub expense : ℕ → OperatingExpense ℕ
expense amount = record {
  id = none;
  expense_name = some "Internet";
  monthly_amount = some (amount * unit);
}

abbrev pub stored_terms : Dict ℕ
stored_terms = ("purchase_price", figure (1000 * unit)) ∷ []
