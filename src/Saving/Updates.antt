-- ===== src/Saving/Updates.antt =====
-- The figures that an update writes (`update` of
-- app/iron_bank/services/operations/update_underwriting_service.py), from what the row holds.
use adus_be.Prelude.{
  ℕ, ◌≡◌, refl, Bool, true, false, Option, none, some, List, [], String, Result, ok, err, ◌>>=◌,
  if◌then◌else◌, is_none, is_some, ◌&&◌,
}
use mathlib.Core.Option
use mathlib.Core.Option.{bind}
use adus_be.Calculator.{
  Failure, Decimals, PurchaseDetailsInput, PurchaseDetails, ForecastedRevenueInput,
  ForecastedRevenue, ProjectLoanInput, ProjectLoan, TaxData, OptimizationItem, OperatingExpense,
  Dict, Validation, calculate_purchase_details,
}
use adus_be.Calculator.Loans.{calculate_project_loan, project_loan_dict, project_loan_amount}
use adus_be.Calculator.Totals.{
  SameTotals, calculate_total_oop_totals, calculate_forecasted_revenue_totals,
  calculate_y1_coc_incl_tax_savings_totals,
}
use adus_be.Saving.{
  Payload, DetailsInput, ZillowProperty, YearOne, sent, Listing, Readers, zillow_of, build_tax_data,
}
use adus_be.Saving.Details.{
  project_loan_for_calculation, forecast_input, forecast, year_one, build_detail_data,
}
use adus_be.Saving.Fields.{with_price, headline, with_figures, apply_calculated_underwriting_fields}

-- what is read of the row that is updated; `zillow_bedrooms` is its zillow_property's, where it has one
pub record Existing (D : Type 0) : Type 0 where
  pub market_id : Option ℕ
  pub zpid : Option String
  pub bedrooms : Option ℕ
  pub zillow_bedrooms : Option ℕ
  pub opex_project_loan : Option (Dict D)

abbrev pub first_some : {A : Type 0} → Option A → Option A → Option A
first_some none other = other
first_some (some a) other = some a

-- chains that agree from a result on
module _ {E A C : Type 0} where
  same_rest : (r : Result E A) (f g : A → Result E C) → ((a : A) → f a ≡ g a) → r >>= f ≡ r >>= g
  same_rest (err raised) f g same = refl
  same_rest (ok a) f g same = same a

module _ {E A B C : Type 0} where
  same_rest_within :
      (r : Result E A) (f g : A → Result E B) (k l : B → Result E C)
      → ((a : A) → f a >>= k ≡ g a >>= l)
      → (r >>= f) >>= k ≡ (r >>= g) >>= l
  same_rest_within (err raised) f g k l same = refl
  same_rest_within (ok a) f g k l same = same a

module _ {D : Type 0} where
  abbrev pub lacks_loan : Option (DetailsInput D) → Bool
  lacks_loan none = false
  lacks_loan (some d) = is_some d.purchase_details && is_none d.opex_project_loan

  unfoldable pub needs_stored_project_loan : Payload D → Bool
  needs_stored_project_loan payload = lacks_loan payload.details

  unfoldable pub stored_project_loan : Option (Existing D) → Option (Dict D)
  stored_project_loan existing = bind existing λ e. Existing.opex_project_loan e

  abbrev pub listing_beds : Readers D → Option String → Option ℕ
  listing_beds readers zpid =
      bind readers.listings_service
        λ get_by_zpid. bind zpid λ z. bind (get_by_zpid z) λ l. Listing.beds l

  -- the payload's, the row's, the zillow_property's of either, then the listing's
  unfoldable pub resolve_bedrooms_for_update : Readers D → Payload D → Existing D → Option ℕ
  resolve_bedrooms_for_update readers payload existing = first_some payload.bedrooms (
      first_some existing.bedrooms (
        first_some (bind (zillow_of payload) λ p. ZillowProperty.bedrooms p)
          (first_some existing.zillow_bedrooms (listing_beds readers existing.zpid))))

  abbrev pub needs_estimate : Option (DetailsInput D) → Bool
  needs_estimate none = false
  needs_estimate (some d) = is_some d.purchase_details && is_none d.forecasted_revenue

  abbrev pub market_and_bedrooms : Readers D → Payload D → Option (Existing D) → Option ℕ × Option ℕ
  market_and_bedrooms readers payload none = (payload.market_id, none)
  market_and_bedrooms readers payload (some existing) = (
    first_some payload.market_id existing.market_id,
    resolve_bedrooms_for_update readers payload existing,
  )

  unfoldable pub resolve_market_and_bedrooms_for_update :
      Readers D → Payload D → Option (Existing D) → Option ℕ × Option ℕ
  resolve_market_and_bedrooms_for_update readers payload existing =
      if needs_estimate payload.details
      then market_and_bedrooms readers payload existing
      else (none, none)

  abbrev pub with_details : DetailsInput D → Payload D → Payload D
  with_details d payload = record payload { details = some d }

  abbrev pub with_loan : Option (ProjectLoanInput D) → DetailsInput D → DetailsInput D
  with_loan loan d = record d { opex_project_loan = loan }

module _ {D : Type 0} (num : Decimals D) (validate : Validation D) (readers : Readers D) where
  -- the columns of the row, with the figures; `existing` is what the repository has under the id
  unfoldable pub updated_columns : Payload D → Option (Existing D) → Result Failure (Dict D)
  updated_columns payload existing = build_tax_data num payload >>= λ tax_data.
      let stored =
        if needs_stored_project_loan payload then stored_project_loan existing else none in
      let place = resolve_market_and_bedrooms_for_update readers payload existing in
      build_detail_data num validate readers payload tax_data place.0 place.1 stored
      >>= λ detail_data.
          apply_calculated_underwriting_fields num validate payload.optimization_list
            (project_loan_for_calculation detail_data stored) detail_data payload.columns

  lacks-with_loan :
      (d : DetailsInput D) (purchase : PurchaseDetailsInput D) (terms : ProjectLoanInput D)
      → d.purchase_details ≡ some purchase
      → (lacks_loan (some (with_loan none d)) ≡ true)
        × (lacks_loan (some (with_loan (some terms) d)) ≡ false)
  lacks-with_loan d purchase terms bought = (rw bought refl, rw bought refl)

  stored_loan_of :
      (existing : Existing D) (own : Option (Dict D))
      → existing.opex_project_loan ≡ own
      → stored_project_loan (some existing) ≡ own
  unfolding stored_project_loan bind
  stored_loan_of existing own h = h

  same_taxes :
      (payload : Payload D) (d : DetailsInput D) (loan : Option (ProjectLoanInput D))
      → build_tax_data num (with_details (with_loan loan d) payload)
        ≡ build_tax_data num (with_details (with_loan none d) payload)
  unfolding build_tax_data
  same_taxes payload d loan = refl

  same_place :
      (payload : Payload D) (d : DetailsInput D) (loan : Option (ProjectLoanInput D))
      (existing : Option (Existing D))
      → resolve_market_and_bedrooms_for_update readers
          (with_details (with_loan loan d) payload)
          existing
        ≡ resolve_market_and_bedrooms_for_update readers
            (with_details (with_loan none d) payload)
            existing
  unfolding resolve_market_and_bedrooms_for_update resolve_bedrooms_for_update
  same_place payload d loan none = refl
  same_place payload d loan (some existing) = refl

  -- loans that the calculations read the same amount of
  module _ (held own : Option (Dict D))
      (same : project_loan_amount num validate held ≡ project_loan_amount num validate own) where
    abbrev totals :
        (expenses : List (OperatingExpense D)) (items : List (OptimizationItem D))
        → SameTotals num validate expenses expenses items items held own
    totals expenses items = record { expenses = refl; items = refl; loans = same }

    forecast_loan :
        (payload : Payload D) (purchase : Option (PurchaseDetails D))
        (input : Option (ForecastedRevenueInput D))
        → forecast num validate readers payload held purchase input
          ≡ forecast num validate readers payload own purchase input
    forecast_loan payload purchase none = refl
    forecast_loan payload none (some input) = refl
    forecast_loan payload (some details) (some input) =
        rw
          (calculate_forecasted_revenue_totals num validate
            (totals payload.operating_expenses payload.optimization_list) details input)
          refl

    year_one_loan :
        (payload : Payload D) (purchase : Option (PurchaseDetails D))
        (forecasted : Option (ForecastedRevenue D)) (taxes : Option (TaxData D))
        (as_sent : Option (YearOne D))
        → year_one num validate readers payload held purchase forecasted taxes as_sent
          ≡ year_one num validate readers payload own purchase forecasted taxes as_sent
    year_one_loan payload none forecasted taxes as_sent = refl
    year_one_loan payload (some details) none taxes as_sent = refl
    year_one_loan payload (some details) (some f) none as_sent = refl
    year_one_loan payload (some details) (some f) (some taxes) as_sent =
        rw
          (calculate_y1_coc_incl_tax_savings_totals num validate
            (totals payload.operating_expenses payload.optimization_list) details f
            taxes.tax_savings)
          refl

    with_figures_loan :
        (items : List (OptimizationItem D)) (purchase : Option (PurchaseDetails D))
        (forecasted : Option (ForecastedRevenue D)) (row : Dict D)
        → with_figures num validate items held purchase forecasted row
          ≡ with_figures num validate items own purchase forecasted row
    unfolding headline
    with_figures_loan items purchase none row = refl
    with_figures_loan items none (some f) row = refl
    with_figures_loan items (some details) (some f) row =
        rw (calculate_total_oop_totals num validate (totals [] items) details) refl

  -- An update with a purchase that leaves the project loan out gives the row the columns, or the
  -- exception, that it would if it sent terms that calculate a loan, where the row holds a loan of which
  -- the calculations read the amount that they read of that one's dict.
  pub updated_columns-with_loan :
      (payload : Payload D) (d : DetailsInput D) (purchase : PurchaseDetailsInput D)
      (existing : Existing D) (held : Dict D) (terms : ProjectLoanInput D) (loan : ProjectLoan D)
      → d.purchase_details ≡ some purchase
      → calculate_project_loan num terms ≡ ok loan
      → existing.opex_project_loan ≡ some held
      → project_loan_amount num validate (some held)
        ≡ project_loan_amount num validate (some (project_loan_dict num loan))
      → updated_columns (with_details (with_loan none d) payload) (some existing)
        ≡ updated_columns (with_details (with_loan (some terms) d) payload) (some existing)
  unfolding updated_columns needs_stored_project_loan build_detail_data project_loan_for_calculation
      apply_calculated_underwriting_fields
  updated_columns-with_loan payload d purchase existing held terms loan bought calculated stored
        read =
      let unsent = with_details (with_loan none d) payload in
      let place = resolve_market_and_bedrooms_for_update readers unsent (some existing) in
      let own = some (project_loan_dict num loan) in
      let details = Option.map (calculate_purchase_details num) d.purchase_details in
      let y1_sent = Option.map sent d.y1_coc_incl_tax_savings in
      let (lacks, has) = lacks-with_loan d purchase terms bought in
      rw
        (
          lacks,
          has,
          same_taxes payload d (some terms),
          same_place payload d (some terms) (some existing),
          calculated,
          stored_loan_of existing (some held) stored,
        )
        (same_rest (build_tax_data num unsent) _ _ λ taxes.
          same_rest_within
            (forecast_input num validate readers place.0 place.1 d.purchase_details
              d.forecasted_revenue)
            _ _ _ _
            λ input. rw (forecast_loan (some held) own read unsent details input) (
              same_rest_within (forecast num validate readers unsent own details input) _ _ _ _
                λ forecasted.
                  rw (year_one_loan (some held) own read unsent details forecasted taxes y1_sent) (
                    same_rest_within
                      (year_one num validate readers unsent own details forecasted taxes y1_sent) _
                      _ _ _
                      λ y1.
                        with_figures_loan (some held) own read payload.optimization_list details
                          forecasted (with_price details payload.columns))))
