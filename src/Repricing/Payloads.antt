-- ===== src/Repricing/Payloads.antt =====
-- `build` of
-- app/iron_bank/services/payload_builders/purchase_price_reconciliation_payload_builder.py, from the
-- columns of an underwriting that it reads (app/iron_bank/models). The validation of what it builds
-- is an argument.
use adus_be.Prelude.{
  ℕ, Bool, Option, none, some, List, [], ◌∷◌, map, String, lookup, Result, ok, err, ◌>>=◌,
}
use adus_be.Json.{Json}
use adus_be.Calculator.{
  Failure, value_error, key_error, OptimizationItem, OperatingExpense, Value, figure, Dict,
}
use adus_be.Repricing.{Underwriting}

module _ (D : Type 0) where
  -- the stored dict of a forecast: its scenarios, and the values beside them
  pub record StoredForecast : Type 0 where
    pub fields : Dict D
    pub scenarios : Option (List (String × Dict D))

  -- a row of `uw_details`
  pub record Detail : Type 0 where
    pub purchase_details : Option (Dict D)
    pub y1_coc_incl_tax_savings : Option Json
    pub forecasted_revenue : Option StoredForecast
    pub opex_project_loan : Option (Dict D)
    pub zillow_property : Option (Dict D)
    pub others : List (String × Json)

  pub record Taxes : Type 0 where
    pub land_assumptions_pct : Option D
    pub sla_multiplier_pct : Option D
    pub bonus_amount_pct : Option D
    pub tax_rate_pct : Option D
    pub improvement_basis : Option D
    pub estimated_short_life_assets : Option D
    pub y1_loss_from_depreciation : Option D
    pub tax_savings : Option D

  -- the columns of an underwriting beside those that the job reads, with its children
  pub record Columns : Type 0 where
    pub is_automated : Option Bool
    pub bedrooms : Option ℕ
    pub bathrooms : Option D
    pub figures : Dict D
    pub detail : Option Detail
    pub taxes : Option Taxes
    pub optimization_items : List (OptimizationItem D)
    pub operating_expenses : List (OperatingExpense D)

  -- the dict that is validated as a SaveUnderwritingPayload
  pub record Draft : Type 0 where
    pub is_automated : Option Bool
    pub bedrooms : Option ℕ
    pub bathrooms : Option D
    pub purchase_details : Dict D
    pub forecasted_revenue : Dict D
    pub scenarios : List (String × Value D)
    pub opex_project_loan : Option (Dict D)
    pub land_assumptions_pct : Option D
    pub sla_multiplier_pct : Option D
    pub bonus_amount_pct : Option D
    pub tax_rate_pct : Option D
    pub optimization_list : List (OptimizationItem D)
    pub operating_expenses : List (OperatingExpense D)

abbrev pub or_key_error : {V : Type 0} → Option V → Result Failure V
or_key_error none = err key_error
or_key_error (some value) = ok value

-- `dict[key]`
abbrev pub required : {V : Type 0} → String → List (String × V) → Result Failure V
required key dict = or_key_error (lookup key dict)

abbrev pub demanded : {A : Type 0} → String → Option A → Result Failure A
demanded message none = err (value_error message)
demanded message (some a) = ok a

module _ {D : Type 0} where
  abbrev pub purchase_dict : D → Dict D → Result Failure (Dict D)
  purchase_dict price stored = required "down_payment_pct" stored >>= λ down_payment.
      required "interest_rate" stored >>= λ interest. required "mortgage_years" stored >>= λ years.
      required "closing_costs_pct" stored >>= λ closing. ok (
        ("purchase_price", figure price)
        ∷ ("down_payment_pct", down_payment)
        ∷ ("interest_rate", interest)
        ∷ ("mortgage_years", years)
        ∷ ("closing_costs_pct", closing)
        ∷ [])

  abbrev pub forecast_dict : StoredForecast D → Result Failure (Dict D)
  forecast_dict stored = required "co_hosting_fee_pct" stored.fields >>= λ fee.
      required "annual_re_appreciation_pct" stored.fields >>= λ appreciation.
      ok (("co_hosting_fee_pct", fee) ∷ ("annual_re_appreciation_pct", appreciation) ∷ [])

  -- `forecasted_revenue["scenarios"][name]["forecasted_revenue"]`
  abbrev pub scenario_revenue : StoredForecast D → String → Result Failure (Value D)
  scenario_revenue stored name = or_key_error stored.scenarios >>= λ all.
      required name all >>= λ scenario. required "forecasted_revenue" scenario

  abbrev pub scenario_dict : StoredForecast D → Result Failure (List (String × Value D))
  scenario_dict stored = scenario_revenue stored "low" >>= λ low.
      scenario_revenue stored "mid" >>= λ mid. scenario_revenue stored "high" >>= λ high.
      ok (("low", low) ∷ ("mid", mid) ∷ ("high", high) ∷ [])

  -- without its id and its notes
  abbrev pub carried_item : OptimizationItem D → OptimizationItem D
  carried_item item = record {
    id = none;
    category = item.category;
    total_price = item.total_price;
    metric = item.metric;
    base_price = item.base_price;
    spec = item.spec;
    tier = item.tier;
    notes = none;
  }

  abbrev pub carried_expense : OperatingExpense D → OperatingExpense D
  carried_expense expense = record {
    id = none;
    expense_name = expense.expense_name;
    monthly_amount = expense.monthly_amount;
  }

  abbrev pub purchase_of : Option (Detail D) → Option (Dict D)
  purchase_of none = none
  purchase_of (some detail) = detail.purchase_details

  abbrev pub forecast_of : Option (Detail D) → Option (StoredForecast D)
  forecast_of none = none
  forecast_of (some detail) = detail.forecasted_revenue

  abbrev pub loan_of : Option (Detail D) → Option (Dict D)
  loan_of none = none
  loan_of (some detail) = detail.opex_project_loan

  unfoldable pub draft : Underwriting D (Columns D) → D → Result Failure (Draft D)
  draft u price =
      let own = u.rest in
      demanded "existing purchase details are required for price reconciliation"
        (purchase_of own.detail)
      >>= λ stored_purchase.
          demanded "existing forecasted revenue is required for price reconciliation"
            (forecast_of own.detail)
          >>= λ stored_forecast.
              demanded "existing taxes are required for price reconciliation" own.taxes >>= λ taxes.
              purchase_dict price stored_purchase >>= λ purchase.
              forecast_dict stored_forecast >>= λ forecast.
              scenario_dict stored_forecast >>= λ scenarios. ok (record {
                is_automated = own.is_automated;
                bedrooms = own.bedrooms;
                bathrooms = own.bathrooms;
                purchase_details = purchase;
                forecasted_revenue = forecast;
                scenarios = scenarios;
                opex_project_loan = loan_of own.detail;
                land_assumptions_pct = taxes.land_assumptions_pct;
                sla_multiplier_pct = taxes.sla_multiplier_pct;
                bonus_amount_pct = taxes.bonus_amount_pct;
                tax_rate_pct = taxes.tax_rate_pct;
                optimization_list = map carried_item own.optimization_items;
                operating_expenses = map carried_expense own.operating_expenses;
              })

  unfoldable pub build :
      {P : Type 0}
      → (Draft D → Result Failure P)
      → Underwriting D (Columns D)
      → D
      → Result Failure P
  build model_validate u price = draft u price >>= model_validate
