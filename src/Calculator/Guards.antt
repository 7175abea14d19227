-- ===== src/Calculator/Guards.antt =====
-- What the guards of the calculator leave to go wrong
-- (app/iron_bank/services/engine/underwriting_calculator.py).
use adus_be.Prelude.{
  arith, ◌≡◌, false, Bool-cases, inl, inr, Option, List, String, Result, ok, err, ◌>>=◌, >>=-eq-ok,
}
use adus_be.Calculator.{
  Failure, arithmetic_error, Decimals, Scenarios, each_scenario, PurchaseDetails,
  ForecastedRevenueInput, ForecastedRevenue, Dict, Validation, OptimizationItem, OperatingExpense,
}
use adus_be.Calculator.Loans.{
  project_loan_amount, gross_oop, out_of_pocket, calculate_total_oop, calculate_debt_service_annual,
  calculate_year_one_principal_pay_down,
}
use adus_be.Calculator.Forecast.{basis, calculate_forecasted_revenue}

-- what fails, fails in the arithmetic
abbrev pub IsArithmetic : {A : Type 0} → Result Failure A → Type 0
IsArithmetic call = (e : Failure) → call ≡ err e → e ≡ arithmetic_error

pub >>=-IsArithmetic :
    {A B : Type 0} (call : Result Failure A) (next : A → Result Failure B)
    → IsArithmetic call
    → ((a : A) → IsArithmetic (next a))
    → IsArithmetic (call >>= next)
>>=-IsArithmetic (ok a) next h k = k a
>>=-IsArithmetic (err raised) next h k = λ e r. h e cc

ok-IsArithmetic : {A : Type 0} (a : A) → IsArithmetic (ok a)
ok-IsArithmetic a e r = cc

pub each_scenario-IsArithmetic :
    {A B : Type 0} (body : A → Result Failure B) (s : Scenarios A)
    → ((a : A) → IsArithmetic (body a))
    → IsArithmetic (each_scenario body s)
each_scenario-IsArithmetic body s h = >>=-IsArithmetic (body s.low) _ (h s.low) λ low.
    >>=-IsArithmetic (body s.mid) _ (h s.mid)
      λ mid. >>=-IsArithmetic (body s.high) _ (h s.high) λ high. ok-IsArithmetic _

module _ {D : Type 0} (num : Decimals D) where
  open num use {sub, div, quantize, less, is_zero}

  -- `decimal` raises its own exceptions only
  pub record IsContained : Type 0 where
    pub div_raises : (x y : D) → IsArithmetic (div x y)
    pub quantize_raises : (x : D) (unit : String) → IsArithmetic (quantize x unit)

  out_of_pocket_lem :
      (gross m t : D)
      → out_of_pocket num gross m ≡ ok t
      → (less gross m ≡ false) × (t ≡ sub gross m) × (is_zero t ≡ false)
  out_of_pocket_lem gross m t h = elim (Bool-cases (less gross m)) [
    | inl over ↦ absurd cc
    | inr fits ↦ elim (Bool-cases (is_zero (sub gross m))) [
      | inl none_left ↦ absurd cc
      | inr left ↦ (fits, ground (arith, h, fits, left), ground (arith, h, fits, left))
    ]
  ]

  module _ (validate : Validation D) (details : PurchaseDetails D)
      (items : List (OptimizationItem D)) (loan : Option (Dict D)) where
    -- Where the cash out of pocket is returned, the project loan is an amount that it covers, and it is
    -- the rest of the gross amount, and not zero.
    pub calculate_total_oop_lem :
        (t : D)
        → calculate_total_oop num validate details items loan ≡ ok t
        → (m : D) × (project_loan_amount num validate loan ≡ ok m)
          × (less (gross_oop num details items) m ≡ false)
          × (t ≡ sub (gross_oop num details items) m)
          × (is_zero t ≡ false)
    unfolding calculate_total_oop
    calculate_total_oop_lem t h =
        let (m, called, rest) = >>=-eq-ok (project_loan_amount num validate loan) _ h in
        let (fits, left, some_left) = out_of_pocket_lem (gross_oop num details items) m t rest in
        (m, called, fits, left, some_left)

    pub calculate_forecasted_revenue-calculate_total_oop :
        (input : ForecastedRevenueInput D) (expenses : List (OperatingExpense D))
        {forecast : ForecastedRevenue D}
        → calculate_forecasted_revenue num validate input details expenses items loan ≡ ok forecast
        → (t : D) × (calculate_total_oop num validate details items loan ≡ ok t)
    unfolding calculate_forecasted_revenue basis
    calculate_forecasted_revenue-calculate_total_oop input expenses h =
        let (b, based, rest) =
          >>=-eq-ok (basis num validate input details expenses items loan) _ h in
        let (service, _, paid) = >>=-eq-ok (calculate_debt_service_annual num details) _ based in
        let (down, _, totalled) =
          >>=-eq-ok (calculate_year_one_principal_pay_down num details) _ paid in
        let (t, found, _) =
          >>=-eq-ok (calculate_total_oop num validate details items loan) _ totalled in
        (t, found)
