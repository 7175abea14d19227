-- ===== src/Saving.antt =====
-- Saving an underwriting (app/iron_bank/services/operations/save_underwriting_service.py): the figures
-- that the row and its details carry. The tables that other parts own are read through `Readers`.
pub mod Details
pub mod Fields
pub mod Guarded
pub mod Columns
pub mod Updates
use adus_be.Prelude.{
  ℕ, Bool, true, false, ◌||◌, Option, none, some, is_some, List, [], ◌∷◌, String, Result, ok, err,
  ◌>>=◌, if◌then◌else◌, or_else,
}
use mathlib.Core.Option.{bind}
use adus_be.Json.{Json}
use adus_be.Calculator.{
  Failure, value_error, validation_error, Decimals, Scenarios, PurchaseDetailsInput,
  PurchaseDetails, ForecastedRevenueInput, ScenarioInput, ForecastedRevenue, ProjectLoanInput,
  TaxInput, TaxData, OptimizationItem, OperatingExpense, Dict, nought, calculate_taxes,
}

module _ (D : Type 0) where
  pub record ZillowProperty : Type 0 where
    pub bedrooms : Option ℕ
    pub bathrooms : Option D
    pub stored : Dict D

  -- UnderwritingDetailsInput; `others` holds the fields that are stored as they come and are not null
  pub record DetailsInput : Type 0 where
    pub purchase_details : Option (PurchaseDetailsInput D)
    pub y1_coc_incl_tax_savings : Option (List (String × Json))
    pub forecasted_revenue : Option (ForecastedRevenueInput D)
    pub opex_project_loan : Option (ProjectLoanInput D)
    pub zillow_property : Option ZillowProperty
    pub others : List (String × Json)

  -- SaveUnderwritingPayload; `columns` holds the columns that are sent, in the order of the model
  pub record Payload : Type 0 where
    pub market_id : Option ℕ
    pub zpid : Option String
    pub bedrooms : Option ℕ
    pub bathrooms : Option D
    pub purchase_price : Option D
    pub columns : Dict D
    pub details : Option DetailsInput
    pub taxes : Option (TaxInput D)
    pub optimization_list : List (OptimizationItem D)
    pub operating_expenses : List (OperatingExpense D)

  -- a year-one return that the calculator computed, or the dict that the client sent
  pub data YearOne : Type 0 where
    computed : Scenarios D → YearOne
    sent : List (String × Json) → YearOne

  pub record DetailData : Type 0 where
    pub purchase_details : Option (PurchaseDetails D)
    pub y1_coc_incl_tax_savings : Option YearOne
    pub forecasted_revenue : Option (ForecastedRevenue D)
    pub opex_project_loan : Option (Dict D)
    pub zillow_property : Option (Dict D)
    pub others : List (String × Json)

  pub record Listing : Type 0 where
    pub beds : Option ℕ
    pub baths : Option D
    pub home_status : Option String

  pub record Percentiles : Type 0 where
    pub low : D
    pub mid : D
    pub high : D

  -- The collaborators, each of which may be left out: the scheduled listings by zpid, the comps'
  -- percentiles and the appreciation rate by market and bedrooms. `to_money` is `_to_money`.
  pub record Readers : Type 0 where
    pub listings_service : Option (String → Option Listing)
    pub cleaned_data_service : Option (ℕ → ℕ → Option Percentiles)
    pub opex_service : Option (ℕ → ℕ → Option (Option D))
    pub to_money : D → D

-- the payload's figure, else that of its zillow_property, else the listing's
abbrev pub first_of {ℓ} : {A : Type ℓ} → Option A → Option A → Option A → Option A
first_of (some a) _ _ = some a
first_of none (some b) _ = some b
first_of none none c = c

module _ {D : Type 0} where
  abbrev pub get_purchase_price : Payload D → Option D
  get_purchase_price payload = price_of payload.details
    where
      price_of : Option (DetailsInput D) → Option D
      price_of none = payload.purchase_price
      price_of (some details) = details_price details.purchase_details
        where
          details_price : Option (PurchaseDetailsInput D) → Option D
          details_price none = payload.purchase_price
          details_price (some input) = some input.purchase_price

  abbrev pub listing_for_save : Readers D → Payload D → Option (Listing D)
  listing_for_save readers payload = found readers.listings_service payload.zpid
    where
      found : Option (String → Option (Listing D)) → Option String → Option (Listing D)
      found (some get_by_zpid) (some zpid) = get_by_zpid zpid
      found _ _ = none

  abbrev pub zillow_of : Payload D → Option (ZillowProperty D)
  zillow_of payload = in_details payload.details
    where
      in_details : Option (DetailsInput D) → Option (ZillowProperty D)
      in_details none = none
      in_details (some details) = details.zillow_property

  unfoldable pub resolve_bedrooms_for_save : Readers D → Payload D → Option ℕ
  resolve_bedrooms_for_save readers payload =
      first_of payload.bedrooms (bind (zillow_of payload) λ p. ZillowProperty.bedrooms p)
        (bind (listing_for_save readers payload) λ l. Listing.beds l)

  unfoldable pub resolve_bathrooms_for_save : Readers D → Payload D → Option D
  resolve_bathrooms_for_save readers payload =
      first_of payload.bathrooms (bind (zillow_of payload) λ p. ZillowProperty.bathrooms p)
        (bind (listing_for_save readers payload) λ l. Listing.baths l)

module _ {D : Type 0} (num : Decimals D) where
  open num use {decimal, less}

  unfoldable pub resolve_appreciation_pct :
      Option (ℕ → ℕ → Option (Option D)) → Option ℕ → Option ℕ → D
  resolve_appreciation_pct (some opex_by) (some market_id) (some bedrooms) =
      rate (opex_by market_id bedrooms)
    where
      rate : Option (Option D) → D
      rate (some (some appreciation)) = appreciation
      rate _ = decimal "0.0425"
  resolve_appreciation_pct _ _ _ = decimal "0.0425"

  -- FractionalPercentage: ge=0, le=1
  abbrev pub is_fraction : D → Bool
  is_fraction x = if less x (nought num) || less (decimal "1") x then false else true

  -- the estimate from the comps; a rate that is no fraction fails its validation
  unfoldable pub build_forecasted_revenue_input :
      Readers D → Option ℕ → Option ℕ → Result Failure (Option (ForecastedRevenueInput D))
  build_forecasted_revenue_input readers market_id bedrooms =
      estimate readers.cleaned_data_service market_id bedrooms
    where
      scenario : D → ScenarioInput D
      scenario percentile = record { forecasted_revenue = readers.to_money percentile; extra = [] }

      from_comps : D → Option (Percentiles D) → Result Failure (Option (ForecastedRevenueInput D))
      from_comps appreciation none = ok none
      from_comps appreciation (some p) =
          if is_fraction appreciation
          then ok (
              some (record {
                co_hosting_fee_pct = nought num;
                annual_re_appreciation_pct = appreciation;
                scenarios = record {
                  low = scenario p.low;
                  mid = scenario p.mid;
                  high = scenario p.high;
                };
                extra = [];
              }))
          else err validation_error

      estimate :
          Option (ℕ → ℕ → Option (Percentiles D))
          → Option ℕ
          → Option ℕ
          → Result Failure (Option (ForecastedRevenueInput D))
      estimate (some percentiles) (some market) (some beds) =
          from_comps (resolve_appreciation_pct readers.opex_service (some market) (some beds))
            (percentiles market beds)
      estimate _ _ _ = ok none

  unfoldable pub build_tax_data : Payload D → Result Failure (Option (TaxData D))
  build_tax_data payload = taxed payload.taxes (get_purchase_price payload)
    where
      taxed : Option (TaxInput D) → Option D → Result Failure (Option (TaxData D))
      taxed none price = ok none
      taxed (some taxes) none =
          err (value_error "purchase_price is required to calculate underwriting taxes")
      taxed (some taxes) (some price) =
          ok (some (calculate_taxes num taxes price payload.optimization_list))
