-- ===== src/Repricing/Priced.antt =====
-- The price of a payload that the builder makes, and of the columns that are written for it
-- (app/iron_bank/services/operations/update_underwriting_service.py).
use mathlib.Core.Path.{subst}
use mathlib.Core.Option
use adus_be.Prelude.{
  ℕ, ◌≡◌, refl, sym, ap, ◌∙◌, eq_iff, true, Option, none, some, [], ◌∷◌, String, filter, lookup,
  str_eq, contains, Result, ok, >>=-eq-ok, ok-injective, Bool-cases, inl, inr,
}
use adus_be.Calculator.{
  Decimals, PurchaseDetailsInput, TaxData, figure, Dict, Validation, calculate_purchase_details,
  Failure,
}
use adus_be.Saving.{
  Payload, DetailsInput, DetailData, Readers, sent, resolve_bedrooms_for_save, build_tax_data,
}
use adus_be.Saving.Details.{
  sent_loan, forecast_input, forecast, year_one, first_loan, details_of, build_detail_data,
  project_loan_for_calculation,
}
use adus_be.Saving.Fields.{apply_calculated_underwriting_fields}
use adus_be.Saving.Columns.{apply_calculated_underwriting_fields-price}
use adus_be.Repricing.{Underwriting}
use adus_be.Repricing.Payloads.{
  Columns, Draft, required, demanded, purchase_of, forecast_of, purchase_dict, forecast_dict,
  scenario_dict, draft,
}
use adus_be.Repricing.Updates.{Encoder, Written, price_reconciliation_fields, is_figure, reconciled}

-- the payload's purchase is at the price
abbrev pub IsPricedAt : {D : Type 0} → D → Payload D → Type 0
IsPricedAt {D} price payload =
    (d : DetailsInput D) × (i : PurchaseDetailsInput D) × (payload.details ≡ some d)
    × (d.purchase_details ≡ some i)
    × (i.purchase_price ≡ price)

module _ {D : Type 0} (num : Decimals D) (validate : Validation D) (readers : Readers D) where
  details_of-purchase :
      (payload : Payload D) (taxes : Option (TaxData D)) (market_id bedrooms : Option ℕ)
      (stored : Option (Dict D)) (d : DetailsInput D) (built : Option (DetailData D))
      → details_of num validate readers payload taxes market_id bedrooms stored (some d) ≡ ok built
      → (b : DetailData D) × (built ≡ some b)
        × (b.purchase_details ≡ Option.map (calculate_purchase_details num) d.purchase_details)
  details_of-purchase payload taxes market_id bedrooms stored d built h =
      let purchase = Option.map (calculate_purchase_details num) d.purchase_details in
      let (own, _, h₁) = >>=-eq-ok (sent_loan num validate readers d.opex_project_loan) _ h in
      let (input, _, h₂) =
        >>=-eq-ok
          (forecast_input num validate readers market_id bedrooms d.purchase_details
            d.forecasted_revenue)
          _ h₁ in
      let loan = first_loan own stored in
      let (f, forecasted, h₃) =
        >>=-eq-ok (forecast num validate readers payload loan purchase input) _ h₂ in
      let (y1, _, h₄) =
        >>=-eq-ok
          (year_one num validate readers payload loan purchase f taxes
            (Option.map sent d.y1_coc_incl_tax_savings))
          _ h₃ in
      (_, sym (ok-injective h₄), refl)

  lookup-filter :
      (key : String) (columns : Dict D)
      → contains key price_reconciliation_fields ≡ true
      → lookup key (filter is_figure columns) ≡ lookup key columns
  unfolding lookup
  lookup-filter key [] listed = refl
  lookup-filter key ((first, v) ∷ columns) listed = elim (Bool-cases (str_eq first key)) [
    | inl h ↦
        let kept : contains first price_reconciliation_fields ≡ true =
          ap (λ k. contains k price_reconciliation_fields) ((eq_iff first key).0 h) ∙ listed in
        rw kept (rw h refl)
    | inr h ↦ elim (Bool-cases (contains first price_reconciliation_fields)) [
      | inl kept ↦ rw kept (rw h (lookup-filter key columns listed))
      | inr dropped ↦ rw dropped (rw h (lookup-filter key columns listed))
    ]
  ]

  module _ (encoder : Encoder D) where
    pub reconciled-price :
        (payload : Payload D) (w : Written D) (price : D)
        → IsPricedAt price payload
        → reconciled num validate readers encoder payload ≡ ok w
        → lookup "purchase_price" w.columns ≡ some (figure price)
    unfolding reconciled build_detail_data contains calculate_purchase_details
    reconciled-price payload w price (d, i, sent_details, sent_purchase, at_price) h =
        let (taxes, _, h₁) = >>=-eq-ok (build_tax_data num payload) _ h in
        let beds = resolve_bedrooms_for_save readers payload in
        let (built, made, h₂) =
          >>=-eq-ok
            (build_detail_data num validate readers payload taxes payload.market_id beds none) _
            h₁ in
        let (b, built_eq, purchase_eq) =
          details_of-purchase payload taxes payload.market_id beds none d built (
            subst
              (λ o.
                details_of num validate readers payload taxes payload.market_id beds none o
                ≡ ok built)
              sent_details made) in
        let (columns, applied, h₃) =
          >>=-eq-ok
            (apply_calculated_underwriting_fields num validate payload.optimization_list
              (project_loan_for_calculation built none) built [])
            _ h₂ in
        let at : b.purchase_details ≡ some (calculate_purchase_details num i) =
          purchase_eq ∙ ap (Option.map (calculate_purchase_details num)) sent_purchase in
        ap (λ x. lookup "purchase_price" (Written.columns x)) (sym (ok-injective h₃))
        ∙ lookup-filter "purchase_price" columns refl
        ∙ apply_calculated_underwriting_fields-price num validate payload.optimization_list
            (project_loan_for_calculation built none) b (calculate_purchase_details num i) []
            columns at
            (subst
              (λ o.
                apply_calculated_underwriting_fields num validate payload.optimization_list
                  (project_loan_for_calculation built none) o []
                ≡ ok columns)
              built_eq applied)
        ∙ ap (λ x. some (figure x)) at_price

module _ {D : Type 0} where
  -- The validation of a payload keeps the price that is given.
  abbrev pub KeepsPrice : (Draft D → Result Failure (Payload D)) → Type 0
  KeepsPrice model_validate =
      (given : Draft D) (payload : Payload D) (price : D)
      → lookup "purchase_price" given.purchase_details ≡ some (figure price)
      → model_validate given ≡ ok payload
      → IsPricedAt price payload

  pub draft-price :
      (u : Underwriting D (Columns D)) (price : D) (d : Draft D)
      → draft u price ≡ ok d
      → lookup "purchase_price" d.purchase_details ≡ some (figure price)
  unfolding draft lookup
  draft-price u price d h =
      let own = u.rest in
      let (stored_purchase, _, h₁) =
        >>=-eq-ok
          (demanded "existing purchase details are required for price reconciliation"
            (purchase_of own.detail))
          _ h in
      let (stored_forecast, _, h₂) =
        >>=-eq-ok
          (demanded "existing forecasted revenue is required for price reconciliation"
            (forecast_of own.detail))
          _ h₁ in
      let (taxes, _, h₃) =
        >>=-eq-ok (demanded "existing taxes are required for price reconciliation" own.taxes) _
          h₂ in
      let (purchase, priced, h₄) = >>=-eq-ok (purchase_dict price stored_purchase) _ h₃ in
      let (forecast, _, h₅) = >>=-eq-ok (forecast_dict stored_forecast) _ h₄ in
      let (scenarios, _, h₆) = >>=-eq-ok (scenario_dict stored_forecast) _ h₅ in
      let (a, _, p₁) = >>=-eq-ok (required "down_payment_pct" stored_purchase) _ priced in
      let (b, _, p₂) = >>=-eq-ok (required "interest_rate" stored_purchase) _ p₁ in
      let (c, _, p₃) = >>=-eq-ok (required "mortgage_years" stored_purchase) _ p₂ in
      let (e, _, p₄) = >>=-eq-ok (required "closing_costs_pct" stored_purchase) _ p₃ in
      ap (λ x. lookup "purchase_price" (Draft.purchase_details x)) (sym (ok-injective h₆))
      ∙ ap (lookup "purchase_price") (sym (ok-injective p₄))
