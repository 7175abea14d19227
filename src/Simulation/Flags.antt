-- ===== src/Simulation/Flags.antt =====
-- Rows that cannot be recalculated, and what fails the request
-- (app/iron_bank/services/operations/simulate_underwritings_service.py).
use adus_be.Prelude.{
  ◌≡◌, refl, sym, ap, ◌∙◌, Bool, true, false, Bool-cases, ◌⊎◌, inl, inr, Option, none, some, [],
  ◌∷◌, Result, ok, err, >>=-eq-ok, ok-injective, err-injective, ok≢err, if◌then◌else◌,
}
use adus_be.Calculator.{
  Failure, value_error, key_error, type_error, validation_error, arithmetic_error, Decimals, Dict,
  Validation, calculate_purchase_details, calculate_cash_on_cash, calculate_budget_to_pp,
}
use adus_be.Calculator.Loans.{calculate_total_oop}
use adus_be.Calculator.Forecast.{calculate_forecasted_revenue}
use adus_be.Simulation.{
  SimulationInput, SimulatedRow, fallback, items_of, expenses_of, y1_of, is_caught, from_stored,
  recalculate, or_fallback, calculate_simulated_row, simulate_row,
}

only_arithmetic : (e : Failure) → is_caught e ≡ false → e ≡ arithmetic_error
only_arithmetic (value_error message) h = cc
only_arithmetic key_error h = cc
only_arithmetic type_error h = cc
only_arithmetic validation_error h = cc
only_arithmetic arithmetic_error h = refl

module _ {D : Type 0} (num : Decimals D) (validate : Validation D) where
  module _ (row : SimulationInput D) (rate pct : Option D) where
    -- the two ways a row comes out: recalculated and marked so, or as stored and marked so
    abbrev pub Outcome : SimulatedRow D → Type 0
    Outcome r =
        ((calculate_simulated_row num validate row rate pct ≡ ok r)
          × (r.simulated ≡ true)
          × (r.id ≡ row.id))
        ⊎ ((e : Failure) × (calculate_simulated_row num validate row rate pct ≡ err e)
            × (is_caught e ≡ true)
            × (r ≡ fallback row))

    recalculate-simulated :
        (merged forecast : Dict D) (r : SimulatedRow D)
        → recalculate num validate row merged forecast ≡ ok r
        → (r.simulated ≡ true) × (r.id ≡ row.id)
    unfolding recalculate
    recalculate-simulated merged forecast r h =
        let (purchase, _, h₁) = >>=-eq-ok (validate.purchase_details merged) _ h in
        let details = calculate_purchase_details num purchase in
        let (input, _, h₂) = >>=-eq-ok (validate.forecasted_revenue forecast) _ h₁ in
        let (forecasted, _, h₃) =
          >>=-eq-ok
            (calculate_forecasted_revenue num validate input details (expenses_of num validate row)
              (items_of num validate row) row.opex_project_loan)
            _ h₂ in
        let (total_oop, _, h₄) =
          >>=-eq-ok
            (calculate_total_oop num validate details (items_of num validate row)
              row.opex_project_loan)
            _ h₃ in
        let (cash_on_cash, _, h₅) =
          >>=-eq-ok (calculate_cash_on_cash num forecasted total_oop) _ h₄ in
        let (budget, _, h₆) =
          >>=-eq-ok (calculate_budget_to_pp num total_oop details.dumped.purchase_price) _ h₅ in
        let (y1, _, h₇) =
          >>=-eq-ok (y1_of num validate row details forecasted row.tax_savings) _ h₆ in
        let same = ok-injective h₇ in
        (sym (ap (λ x. SimulatedRow.simulated x) same), sym (ap (λ x. SimulatedRow.id x) same))

    from_stored-simulated :
        (purchase forecast : Option (Dict D)) (r : SimulatedRow D)
        → from_stored num validate row rate pct purchase forecast ≡ ok r
        → (r.simulated ≡ true) × (r.id ≡ row.id)
    from_stored-simulated (some (p ∷ purchase)) (some (f ∷ forecast)) r h =
        recalculate-simulated _ (f ∷ forecast) r h
    from_stored-simulated (some (p ∷ purchase)) (some []) r h = cc
    from_stored-simulated (some (p ∷ purchase)) none r h = cc
    from_stored-simulated (some []) forecast r h = cc
    from_stored-simulated none forecast r h = cc

    calculate_simulated_row-simulated :
        (r : SimulatedRow D)
        → calculate_simulated_row num validate row rate pct ≡ ok r
        → (r.simulated ≡ true) × (r.id ≡ row.id)
    unfolding calculate_simulated_row
    calculate_simulated_row-simulated r h =
        from_stored-simulated row.purchase_details row.forecasted_revenue r h

    handled :
        (raised : Failure) (b : Bool)
        → is_caught raised ≡ b
        → or_fallback num validate row rate pct (err raised)
          ≡ (if b then ok (fallback row) else err raised)
    handled raised b h = ap (λ c. if c then ok (fallback row) else err raised) h

    outcome :
        (calculated : Result Failure (SimulatedRow D))
        → calculate_simulated_row num validate row rate pct ≡ calculated
        → (r : SimulatedRow D) → or_fallback num validate row rate pct calculated ≡ ok r
        → Outcome r
    outcome (ok c) h r g =
        let returned = h ∙ g in
        let (marked, kept) = calculate_simulated_row-simulated r returned in
        inl (returned, marked, kept)
    outcome (err raised) h r g = elim (Bool-cases (is_caught raised)) [
      | inl caught ↦
          inr (raised, h, caught, sym (ok-injective (sym (handled raised true caught) ∙ g)))
      | inr uncaught ↦ absurd (ok≢err (sym g ∙ handled raised false uncaught))
    ]

    failure :
        (calculated : Result Failure (SimulatedRow D)) (e : Failure)
        → or_fallback num validate row rate pct calculated ≡ err e
        → e ≡ arithmetic_error
    failure (ok c) e g = cc
    failure (err raised) e g = elim (Bool-cases (is_caught raised)) [
      | inl caught ↦ absurd (ok≢err (sym (handled raised true caught) ∙ g))
      | inr uncaught ↦
          sym (err-injective (sym (handled raised false uncaught) ∙ g))
          ∙ only_arithmetic raised uncaught
    ]

    pub simulate_row_lem :
        ((r : SimulatedRow D) → simulate_row num validate row rate pct ≡ ok r → Outcome r)
        × ((e : Failure) → simulate_row num validate row rate pct ≡ err e → e ≡ arithmetic_error)
    unfolding simulate_row
    simulate_row_lem = (
      outcome (calculate_simulated_row num validate row rate pct) refl,
      failure (calculate_simulated_row num validate row rate pct),
    )

    simulate_row-id :
        (r : SimulatedRow D) → simulate_row num validate row rate pct ≡ ok r → r.id ≡ row.id
    unfolding fallback
    simulate_row-id r h = elim (simulate_row_lem.0 r h) [
      | inl (_, _, same) ↦ same
      | inr (_, _, _, stored) ↦ ap (λ x. SimulatedRow.id x) stored
    ]
